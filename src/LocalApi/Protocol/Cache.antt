-- ===== src/LocalApi/Protocol/Cache.antt =====
-- internal/localapi/protocol.go: the cache of statuses that arrive in any order.
use overseas.Base.{ℕ, ◌≤◌, true, none, some, List, [], ◌∷◌, ◌≡◌, arith}
use overseas.LocalApi.Projection.{LocalStatus, valid_status}
use overseas.LocalApi.Protocol.{StatusCache, apply_status}

-- The cache after the statuses of a list, applied in their order.
unfoldable pub apply_all : List LocalStatus → StatusCache → StatusCache
apply_all [] cache = cache
apply_all (status ∷ later) cache = apply_all later (apply_status status cache).1

-- A status of at least the generation is held.
abbrev pub Reaches : ℕ → StatusCache → Type 0
Reaches generation none = ⊥
Reaches generation (some held) = generation ≤ held.generation

-- What is held is valid, and no older than what was held before.
abbrev pub IsHeld : StatusCache → Type 0
IsHeld none = Unit
IsHeld (some held) = valid_status held ≡ true

-- Every valid status of the list is covered by the cache.
abbrev pub Covers : List LocalStatus → StatusCache → Type 0
Covers [] cache = Unit
Covers (status ∷ later) cache =
    (valid_status status ≡ true → Reaches status.generation cache) × Covers later cache

apply-Reaches :
    (status : LocalStatus) (cache : StatusCache)
    → valid_status status ≡ true
    → Reaches status.generation (apply_status status cache).1
unfolding apply_status
apply-Reaches status none v = ground arith
apply-Reaches status (some held) v = ground arith

apply-keeps :
    (g : ℕ) (status : LocalStatus) (cache : StatusCache)
    → Reaches g cache
    → Reaches g (apply_status status cache).1
unfolding apply_status
apply-keeps g status (some held) h = ground arith
apply-keeps g status none h = absurd h

apply-IsHeld :
    (status : LocalStatus) (cache : StatusCache)
    → IsHeld cache
    → IsHeld (apply_status status cache).1
unfolding apply_status
apply-IsHeld status none h = ground arith
apply-IsHeld status (some held) h = ground arith

apply_all-keeps :
    (g : ℕ) (l : List LocalStatus) (cache : StatusCache)
    → Reaches g cache
    → Reaches g (apply_all l cache)
unfolding apply_all
apply_all-keeps g [] cache h = h
apply_all-keeps g (status ∷ later) cache h =
    apply_all-keeps g later _ (apply-keeps g status cache h)

apply_all-IsHeld :
    (l : List LocalStatus) (cache : StatusCache) → IsHeld cache → IsHeld (apply_all l cache)
unfolding apply_all
apply_all-IsHeld [] cache h = h
apply_all-IsHeld (status ∷ later) cache h = apply_all-IsHeld later _ (apply-IsHeld status cache h)

apply_all-Covers : (l : List LocalStatus) (cache : StatusCache) → Covers l (apply_all l cache)
unfolding apply_all
apply_all-Covers [] cache = tt
apply_all-Covers (status ∷ later) cache = (
  λ v. apply_all-keeps status.generation later _ (apply-Reaches status cache v),
  apply_all-Covers later _,
)

-- Whatever statuses are applied to an empty cache, in whatever order, it then holds a valid status or
-- none, and no valid status among them has a later generation than the one held.
pub apply_all-newest :
    (l : List LocalStatus) → IsHeld (apply_all l none) × Covers l (apply_all l none)
apply_all-newest l = (apply_all-IsHeld l none tt, apply_all-Covers l none)
