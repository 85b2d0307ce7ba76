-- ===== src/Verdict/Leaks.antt =====
-- internal/verdict/verdict.go: the precedence of a leak.
use mathlib.Core.List.{Memᴰ}
use mathlib.Core.List.Memᴰ
use overseas.Base.{
  str_eq, all, eq_iff, String, Bool, true, false, Option, none, some, List, [], ◌∷◌, if◌then◌else◌,
  any, ◌≡◌, ◌↔◌, refl, sym, ap, ◌∙◌, arith, inl, inr, Bool-cases, sort_strings,
}
use overseas.Config.{Config, Target}
use overseas.Verdict.Evidence.{
  TargetResult, ProbeEvidence, Evidence, Artifacts, fail_leak, VerdictEnv,
}
use overseas.Verdict.Checks.{
  expected_context, valid_envelope, valid_target_result, is_result_of, exact_configured_target,
}
use overseas.Verdict.Evaluate.{
  is_leak, find_leak, leak_of, artifacts_of, failed_names, judge_failed, judge_artifacts,
  judge_complete, judge_leak, judge_expected, evaluate,
}

-- A probe of the run, well formed and taken while telecom was down, has a result that says that a
-- configured target was reached.
pub record IsLeak (d : VerdictEnv) (e : Evidence) : Type 0 where
  pub config : Config
  pub digest : String
  pub probe : ProbeEvidence
  pub context : expected_context d e ≡ some (config, digest)
  pub down : e.telecom_down ≡ some probe
  pub envelope : valid_envelope d e digest probe ≡ true
  pub result : TargetResult
  pub listed : Memᴰ result probe.results
  pub target : Target
  pub approved : Memᴰ target config.approved_targets
  pub is_target : (result.target_name ≡ target.name) × (result.target_url ≡ target.url)
  pub reached : result.is_reachable ≡ true

-- A test that some item passes.
any-member :
    {A : Type 0} (q : A → Bool) (l : List A) → any q l ≡ true → (x : A) × Memᴰ x l × (q x ≡ true)
any-member q [] h = cc
any-member q (x ∷ xs) h = elim (Bool-cases (q x)) [
  | inl here ↦ (x, Memᴰ.head refl, here)
  | inr other ↦ let (y, m, k) = any-member q xs (ground (arith, h, other)) in (y, Memᴰ.tail m, k)
]

member-any :
    {A : Type 0} (q : A → Bool) (l : List A) {x : A} → Memᴰ x l → q x ≡ true → any q l ≡ true
member-any q [] m h = absurd (Memᴰ.not-nil m)
member-any q (y ∷ ys) m h = elim (Memᴰ.cases_cons m) [
  | inl e ↦ let k : q y ≡ true = sym (ap q e) ∙ h in rw k refl
  | inr n ↦ ground (arith, member-any q ys n h)
]

all-member :
    {A : Type 0} (q : A → Bool) (l : List A) {x : A} → all q l ≡ true → Memᴰ x l → q x ≡ true
all-member q [] h m = absurd (Memᴰ.not-nil m)
all-member q (y ∷ ys) h m = elim (Memᴰ.cases_cons m) [
  | inl e ↦ ap q e ∙ ground (arith, h)
  | inr n ↦ all-member q ys (ground (arith, h)) n
]

configured-target :
    (r : TargetResult) (l : List Target)
    → exact_configured_target r l ≡ true
    → (t : Target) × Memᴰ t l × ((r.target_name ≡ t.name) × (r.target_url ≡ t.url))
unfolding exact_configured_target
configured-target r [] h = cc
configured-target r (t ∷ ts) h = elim (Bool-cases (is_result_of t r)) [
  | inl here ↦ (
    t,
    Memᴰ.head refl,
    (
      (eq_iff r.target_name t.name).0 (ground (arith, here)),
      (eq_iff r.target_url t.url).0 (ground (arith, here)),
    ),
  )
  | inr other ↦
      let (u, m, k) = configured-target r ts (ground (arith, h, other)) in (u, Memᴰ.tail m, k)
]

target-configured :
    (r : TargetResult) (l : List Target) {t : Target}
    → Memᴰ t l
    → (r.target_name ≡ t.name) × (r.target_url ≡ t.url)
    → exact_configured_target r l ≡ true
unfolding exact_configured_target
target-configured r [] m h = absurd (Memᴰ.not-nil m)
target-configured r (u ∷ us) m h = elim (Memᴰ.cases_cons m) [
  | inl e ↦
      let n : str_eq r.target_name u.name ≡ true =
        (eq_iff r.target_name u.name).1 (h.0 ∙ ap (λ (v : Target). v.name) e) in
      let k : str_eq r.target_url u.url ≡ true =
        (eq_iff r.target_url u.url).1 (h.1 ∙ ap (λ (v : Target). v.url) e) in
      rw (n, k) refl
  | inr n ↦ ground (arith, target-configured r us n h)
]

abbrev is_found : Option TargetResult → Bool
is_found none = false
is_found (some r) = true

module _ (d : VerdictEnv) (e : Evidence) where
  find_leak-any :
      (c : Config) (probe : ProbeEvidence) (rs : List TargetResult)
      → is_found (find_leak d e c probe rs) ≡ any (is_leak d e c probe) rs
  unfolding find_leak
  find_leak-any c probe [] = refl
  find_leak-any c probe (r ∷ rs) = elim (Bool-cases (is_leak d e c probe r)) [
    | inl here ↦ rw here refl
    | inr later ↦ rw (later, find_leak-any c probe rs) refl
  ]

  failed-code :
      (digest : String) (l : List String) → (judge_failed d e digest l).code ≡ fail_leak → ⊥
  unfolding judge_failed
  failed-code digest [] h = cc
  failed-code digest (x ∷ xs) h = cc

  artifacts-code :
      (c : Config) (digest : String) (a : Artifacts)
      → (judge_artifacts d e c digest a).code ≡ fail_leak
      → ⊥
  unfolding judge_artifacts
  artifacts-code c digest a h =
      ground (arith, failed-code digest (sort_strings (failed_names d e a.up.results)))

  complete-code :
      (c : Config) (digest : String) (o : Option Artifacts)
      → (judge_complete d e c digest o).code ≡ fail_leak
      → ⊥
  unfolding judge_complete
  complete-code c digest none h = cc
  complete-code c digest (some a) h = artifacts-code c digest a h

  leak-code :
      (c : Config) (digest : String) (o : Option TargetResult)
      → (judge_leak d e c digest o).code ≡ fail_leak
      → is_found o ≡ true
  unfolding judge_leak
  leak-code c digest none h = absurd (complete-code c digest (artifacts_of d e) h)
  leak-code c digest (some r) h = refl

  code-leak :
      (c : Config) (digest : String) (o : Option TargetResult)
      → is_found o ≡ true
      → (judge_leak d e c digest o).code ≡ fail_leak
  unfolding judge_leak
  code-leak c digest none h = cc
  code-leak c digest (some r) h = refl

  probe-IsLeak :
      (c : Config) (digest : String) (o : Option ProbeEvidence)
      → expected_context d e ≡ some (c, digest)
      → e.telecom_down ≡ o
      → is_found (leak_of d e c digest o) ≡ true
      → IsLeak d e
  unfolding leak_of
  probe-IsLeak c digest none context down h = cc
  probe-IsLeak c digest (some probe) context down h =
      let (v, f) = searched (valid_envelope d e digest probe) h in
      let (r, m, leak) =
        any-member (is_leak d e c probe) probe.results
          (sym (find_leak-any c probe probe.results) ∙ f) in
      let (t, approved, same) = configured-target r c.approved_targets (ground (arith, leak)) in
      record {
        config = c;
        digest = digest;
        probe = probe;
        context = context;
        down = down;
        envelope = v;
        result = r;
        listed = m;
        target = t;
        approved = approved;
        is_target = same;
        reached = ground (arith, leak);
      }
    where
      searched :
          (b : Bool)
          → is_found (if b then find_leak d e c probe probe.results else none) ≡ true
          → (b ≡ true) × (is_found (find_leak d e c probe probe.results) ≡ true)
      searched true h = (refl, h)
      searched false h = cc

  context-IsLeak :
      (o : Option (Config × String))
      → expected_context d e ≡ o
      → (judge_expected d e o).code ≡ fail_leak
      → IsLeak d e
  unfolding judge_expected
  context-IsLeak none context h = cc
  context-IsLeak (some (c, digest)) context h =
      probe-IsLeak c digest e.telecom_down context refl
        (leak-code c digest (leak_of d e c digest e.telecom_down) h)

  IsLeak-any : (p : IsLeak d e) → any (is_leak d e p.config p.probe) p.probe.results ≡ true
  unfolding valid_envelope
  IsLeak-any p =
      let formed : all (valid_target_result d p.probe) p.probe.results ≡ true =
        ground (arith, p.envelope) in
      let this = all-member (valid_target_result d p.probe) p.probe.results formed p.listed in
      let target = target-configured p.result p.config.approved_targets p.approved p.is_target in
      member-any (is_leak d e p.config p.probe) p.probe.results p.listed
        (rw (this, target, p.reached) refl)

  IsLeak-code : IsLeak d e → (judge_expected d e (expected_context d e)).code ≡ fail_leak
  unfolding judge_expected leak_of
  IsLeak-code p =
      let found = find_leak-any p.config p.probe p.probe.results ∙ IsLeak-any p in
      ap (λ o. (judge_expected d e o).code) p.context
      ∙ ap (λ o. (judge_leak d e p.config p.digest (leak_of d e p.config p.digest o)).code) p.down
      ∙ code-leak p.config p.digest (leak_of d e p.config p.digest (some p.probe))
          (rw p.envelope found)

-- `Evaluate` reports a leak exactly if the context is valid, the probe's envelope while telecom was
-- down is valid, and one of its results has the name and URL of an approved target and says that it
-- was reached, whatever other artifacts are missing or malformed.
pub evaluate-IsLeak_iff :
    (d : VerdictEnv) (e : Evidence) → ((evaluate d e).code ≡ fail_leak) ↔ IsLeak d e
unfolding evaluate
evaluate-IsLeak_iff d e = (context-IsLeak d e (expected_context d e) refl, IsLeak-code d e)
