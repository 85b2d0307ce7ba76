-- ===== src/Verdict/Targets.antt =====
-- internal/verdict/verdict.go: results that `sameConfiguredTargets` accepts are those of every target.
use Prim.Native.String.{◌++◌ as ◌then◌}
use overseas.Base.{
  String, Bool, true, false, List, [], ◌∷◌, ◌&&◌, str_eq, if◌then◌else◌, length, map, all, any, ◌≡◌,
  refl, sym, ap, ◌∙◌, inl, inr, arith, eq_iff, Bool-cases, mem_by, distinct_by, within_by,
  distinct-covers,
}
use overseas.AccessModel.Validate.{is_member_of}
use overseas.Config.{Target}
use overseas.Verdict.Evidence.{TargetResult}
use overseas.Verdict.Checks.{
  is_result_of, exact_configured_target, result_key, check_targets, same_configured_targets,
}

-- The name and the address that a result, or a target, has.
abbrev same_pair : String × String → String × String → Bool
same_pair (a, b) (c, d) = str_eq a c && str_eq b d

abbrev pair_of : TargetResult → String × String
pair_of r = (r.target_name, r.target_url)

abbrev target_pair : Target → String × String
target_pair t = (t.name, t.url)

same_pair-exact : (p q : String × String) → same_pair p q ≡ true → p ≡ q
same_pair-exact (a, b) (c, d) h = ground (arith, eq_iff a c, eq_iff b d)

same_pair-reflexive : (p : String × String) → same_pair p p ≡ true
same_pair-reflexive (a, b) = rw ((eq_iff a a).1 refl, (eq_iff b b).1 refl) refl

exact-member :
    (r : TargetResult) (l : List Target)
    → exact_configured_target r l ≡ true
    → mem_by same_pair (pair_of r) (map target_pair l) ≡ true
unfolding exact_configured_target
exact-member r [] h = cc
exact-member r (t ∷ ts) h = ground (arith, exact-member r ts)

check_targets-within :
    (expected : List Target) (seen : List String) (rs : List TargetResult)
    → check_targets expected seen rs ≡ true
    → within_by same_pair (map pair_of rs) (map target_pair expected) ≡ true
unfolding check_targets
check_targets-within expected seen [] h = refl
check_targets-within expected seen (r ∷ rs) h =
    ground (arith, exact-member r expected, check_targets-within expected (result_key r ∷ seen) rs)

str_refl : (s : String) → str_eq s s ≡ true
str_refl s = (eq_iff s s).1 refl

-- A pair whose key was seen is that of no later result.
unseen :
    (q : TargetResult) (expected : List Target) (seen : List String) (rs : List TargetResult)
    → is_member_of (result_key q) seen ≡ true
    → check_targets expected seen rs ≡ true
    → mem_by same_pair (pair_of q) (map pair_of rs) ≡ false
unfolding check_targets
unseen q expected seen [] m h = refl
unseen q expected seen (r ∷ rs) m h = elim (Bool-cases (same_pair (pair_of q) (pair_of r))) [
  | inl same ↦
      let e = same_pair-exact (pair_of q) (pair_of r) same in
      let k = ap (λ (p : String × String). p.0 then ("\0" then p.1)) e in
      let n = sym (ap (λ key. is_member_of key seen) k) ∙ m in ground (arith, h, n)
  | inr other ↦
      let later : check_targets expected (result_key r ∷ seen) rs ≡ true = ground (arith, h) in
      let rest = unseen q expected (result_key r ∷ seen) rs (ground (arith, m)) later in
      rw (other, rest) refl
]

check_targets-distinct :
    (expected : List Target) (seen : List String) (rs : List TargetResult)
    → check_targets expected seen rs ≡ true
    → distinct_by same_pair (map pair_of rs) ≡ true
unfolding check_targets
check_targets-distinct expected seen [] h = refl
check_targets-distinct expected seen (r ∷ rs) h =
    let later : check_targets expected (result_key r ∷ seen) rs ≡ true = ground (arith, h) in
    let fresh =
      unseen r expected (result_key r ∷ seen) rs (rw (str_refl (result_key r)) refl) later in
    rw (fresh, check_targets-distinct expected (result_key r ∷ seen) rs later) refl

length-map : {A B : Type 0} (f : A → B) (l : List A) → length (map f l) ≡ length l
length-map f [] = refl
length-map f (x ∷ xs) = omega (arith, length-map f xs)

found-any :
    (q : TargetResult → Bool) (t : Target) (rs : List TargetResult)
    → all q rs ≡ true
    → mem_by same_pair (target_pair t) (map pair_of rs) ≡ true
    → any (λ r. is_result_of t r && q r) rs ≡ true
found-any q t [] h m = cc
found-any q t (r ∷ rs) h m = ground (
  arith,
  h,
  m,
  eq_iff t.name r.target_name,
  eq_iff r.target_name t.name,
  eq_iff t.url r.target_url,
  eq_iff r.target_url t.url,
  found-any q t rs,
)

-- What all results satisfy, a result of each target does.
pub same_configured_targets-covers :
    (q : TargetResult → Bool) (rs : List TargetResult) (expected : List Target) (t : Target)
    → same_configured_targets rs expected ≡ true
    → all q rs ≡ true
    → mem_by same_pair (target_pair t) (map target_pair expected) ≡ true
    → any (λ r. is_result_of t r && q r) rs ≡ true
unfolding same_configured_targets
same_configured_targets-covers q rs expected t h p m =
    let checked : check_targets expected [] rs ≡ true = ground (arith, h) in
    let lengths : length rs ≡ length expected = ground (arith, h) in
    found-any q t rs p (
      distinct-covers same_pair same_pair-exact same_pair-reflexive (map pair_of rs)
        (map target_pair expected) (target_pair t) (check_targets-distinct expected [] rs checked)
        (check_targets-within expected [] rs checked)
        (length-map pair_of rs ∙ lengths ∙ sym (length-map target_pair expected)) m)

-- Every target of the list has a result with the property.
abbrev pub each_target : (TargetResult → Bool) → List TargetResult → List Target → Bool
each_target q rs l = all (λ (t : Target). any (λ r. is_result_of t r && q r) rs) l

each-member :
    (q : TargetResult → Bool) (rs : List TargetResult) (l : List Target)
    → ((t : Target)
        → mem_by same_pair (target_pair t) (map target_pair l) ≡ true
        → any (λ r. is_result_of t r && q r) rs ≡ true)
    → each_target q rs l ≡ true
each-member q rs [] h = refl
each-member q rs (t ∷ ts) h =
    let this = h t (rw (same_pair-reflexive (target_pair t)) refl) in
    rw (this, each-member q rs ts (λ u m. h u (ground (arith, m)))) refl

pub same_configured_targets-each :
    (q : TargetResult → Bool) (rs : List TargetResult) (l : List Target)
    → same_configured_targets rs l ≡ true
    → all q rs ≡ true
    → each_target q rs l ≡ true
same_configured_targets-each q rs l h p =
    each-member q rs l (λ t. same_configured_targets-covers q rs l t h p)

exact-each :
    (expected : List Target) (seen : List String) (rs : List TargetResult)
    → check_targets expected seen rs ≡ true
    → all (λ r. exact_configured_target r expected) rs ≡ true
unfolding check_targets
exact-each expected seen [] h = refl
exact-each expected seen (r ∷ rs) h = ground (arith, exact-each expected (result_key r ∷ seen) rs)

pub same_configured_targets-exact :
    (rs : List TargetResult) (l : List Target)
    → same_configured_targets rs l ≡ true
    → all (λ r. exact_configured_target r l) rs ≡ true
unfolding same_configured_targets
same_configured_targets-exact rs l h = exact-each l [] rs (ground (arith, h))
