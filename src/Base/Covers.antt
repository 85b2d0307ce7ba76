-- ===== src/Base/Covers.antt =====
-- Lists without repetition: a list within another of its length covers it.
use Prim.Native.Nat.{◌+◌, ◌≤◌}
use mathlib.Core.Path.{◌≡◌, refl, sym, ap, ◌∙◌}
use mathlib.Core.Logic.{inl, inr}
use mathlib.Core.Bool.{Bool, true, false, ◌&&◌, ◌||◌, not}
use mathlib.Core.List.{List, [], ◌∷◌}
use native.Mathlib.Omega.{arith}
use overseas.Base.Tests.{if◌then◌else◌, Bool-cases}
use overseas.Base.Lists.{length}

module _ {A : Type 0} (eq : A → A → Bool) where
  abbrev pub mem_by : A → List A → Bool
  mem_by x [] = false
  mem_by x (y ∷ ys) = eq x y || mem_by x ys

  abbrev pub distinct_by : List A → Bool
  distinct_by [] = true
  distinct_by (x ∷ xs) = not (mem_by x xs) && distinct_by xs

  abbrev pub within_by : List A → List A → Bool
  within_by [] l = true
  within_by (x ∷ xs) l = mem_by x l && within_by xs l

  -- Without the first occurrence.
  abbrev pub remove_by : A → List A → List A
  remove_by x [] = []
  remove_by x (y ∷ ys) = let later = remove_by x ys in if eq x y then ys else y ∷ later

module _ {A : Type 0} (eq : A → A → Bool) (exact : (x y : A) → eq x y ≡ true → x ≡ y)
    (reflexive : (x : A) → eq x x ≡ true) where
  remove-length :
      (x : A) (l : List A) → mem_by eq x l ≡ true → length (remove_by eq x l) + 1 ≡ length l
  remove-length x [] h = cc
  remove-length x (y ∷ ys) h = ground (arith, remove-length x ys)

  remove-keeps :
      (x y : A) (l : List A)
      → eq x y ≡ false
      → mem_by eq y l ≡ true
      → mem_by eq y (remove_by eq x l) ≡ true
  remove-keeps x y [] n h = cc
  remove-keeps x y (z ∷ zs) n h = elim (Bool-cases (eq x z)) [
    | inl this ↦ elim (Bool-cases (eq y z)) [
      | inl same ↦
          let e = exact x z this ∙ sym (exact y z same) in
          absurd (differ (ap (eq x) (sym e) ∙ reflexive x) n)
      | inr other ↦ ground (arith, this, other, h)
    ]
    | inr that ↦ ground (arith, that, h, remove-keeps x y zs n)
  ]
    where
      differ : {b : Bool} → b ≡ true → b ≡ false → ⊥
      differ p q = cc

  remove-within :
      (x : A) (xs l : List A)
      → mem_by eq x xs ≡ false
      → within_by eq xs l ≡ true
      → within_by eq xs (remove_by eq x l) ≡ true
  remove-within x [] l n h = refl
  remove-within x (y ∷ ys) l n h = ground (arith, n, h, remove-keeps x y l, remove-within x ys l)

  distinct-length :
      (xs l : List A) → distinct_by eq xs ≡ true → within_by eq xs l ≡ true → length xs ≤ length l
  distinct-length [] l d h = omega arith
  distinct-length (x ∷ xs) l d h =
      ground (
        arith,
        d,
        h,
        remove-length x l,
        remove-within x xs l,
        distinct-length xs (remove_by eq x l),
      )

  pub distinct-covers :
      (xs l : List A) (y : A)
      → distinct_by eq xs ≡ true
      → within_by eq xs l ≡ true
      → length xs ≡ length l
      → mem_by eq y l ≡ true
      → mem_by eq y xs ≡ true
  distinct-covers xs l y d h n m =
      ground (arith, remove-length y l, remove-within y xs l, distinct-length xs (remove_by eq y l))
