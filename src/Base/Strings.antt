-- ===== src/Base/Strings.antt =====
-- Go's `sort.Strings`: texts in the order of their bytes.
use Prim.Native.Nat.{Ordering}
use Prim.Native.String.{String, compare}
use mathlib.Core.Bool.{Bool, true, false}
use mathlib.Core.List.{List, [], ◌∷◌}
use overseas.Base.Tests.{if◌then◌else◌}

-- The order of `sort.Strings`.
unfoldable pub is_after : String → String → Bool
is_after x y = elim (compare x y) [ Ordering.gt ↦ true | _ ↦ false ]

unfoldable pub insert_string : String → List String → List String
insert_string x [] = x ∷ []
insert_string x (y ∷ ys) =
    let later = insert_string x ys in if is_after x y then y ∷ later else x ∷ y ∷ ys

unfoldable pub sort_strings : List String → List String
sort_strings [] = []
sort_strings (x ∷ xs) = insert_string x (sort_strings xs)
