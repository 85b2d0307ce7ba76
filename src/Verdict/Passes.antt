-- ===== src/Verdict/Passes.antt =====
-- internal/verdict/verdict.go: what a PASS proves, and what PASSes.
use overseas.Base.{
  String, Bool, true, false, Option, none, some, List, [], ◌∷◌, ◌||◌, not, if◌then◌else◌, is_empty,
  all, ◌≡◌, refl, sym, ap, ◌∙◌, arith, sort_strings, insert_string,
}
use overseas.Config.{Config}
use overseas.Inventory.{Artifact}
use overseas.Verdict.Evidence.{
  TargetResult, ProbeEvidence, DownMonitorEvidence, Evidence, Artifacts, pass, fail, inconclusive,
  Report, VerdictEnv,
}
use overseas.Verdict.SameState.{same_state}
use overseas.Verdict.SameState.Counts.{IsRestored, same_state-IsRestored}
use overseas.Verdict.Checks.{
  expected_context, valid_envelope, valid_target_result, valid_chronology, exact_configured_target,
  same_configured_targets,
}
use overseas.Verdict.Targets.{
  each_target, same_configured_targets-each, same_configured_targets-exact,
}
use overseas.Verdict.Evaluate.{
  find_leak, leak_of, artifacts_of, gather, failed_names, judge_failed, is_bound_evidence,
  judge_artifacts, judge_complete, judge_leak, judge_expected, evaluate,
}

-- Evidence that is complete, of one run, and in order, and whose probes and inventories are good.
pub record IsComplete (d : VerdictEnv) (e : Evidence) (c : Config) (digest : String) (a : Artifacts)
    : Type 0 where
  pub context : expected_context d e ≡ some (c, digest)
  pub gathered : artifacts_of d e ≡ some a
  pub decoded : is_empty e.artifact_errors ≡ true
  pub bound : is_bound_evidence d e c digest a ≡ true
  pub up_targets : same_configured_targets a.up.results c.approved_targets ≡ true
  pub down_targets : same_configured_targets a.down.results c.approved_targets ≡ true
  pub ordered : valid_chronology a ≡ true
  pub restored : same_state d a.before.state a.after.state ≡ true
  pub steady : a.monitor.has_reconnected ≡ false
  pub healthy : all (λ r. r.is_healthy) a.up.results ≡ true
  pub closed : all (λ r. not r.is_reachable) a.down.results ≡ true

pass-not-fail : {P : Type 0} → fail ≡ pass → P
pass-not-fail h = cc

pass-not-inconclusive : {P : Type 0} → inconclusive ≡ pass → P
pass-not-inconclusive h = cc

module _ (d : VerdictEnv) (e : Evidence) where
  -- No leak, among results that are valid and of the configured targets: none was reachable.
  no_leak-closed :
      (c : Config) (probe : ProbeEvidence) (rs : List TargetResult)
      → find_leak d e c probe rs ≡ none
      → all (valid_target_result d probe) rs ≡ true
      → all (λ r. exact_configured_target r c.approved_targets) rs ≡ true
      → all (λ r. not r.is_reachable) rs ≡ true
  unfolding find_leak
  no_leak-closed c probe [] h v x = refl
  no_leak-closed c probe (r ∷ rs) h v x = ground (arith, h, v, x, no_leak-closed c probe rs)

  failed_names-none :
      (rs : List TargetResult) → failed_names d e rs ≡ [] → all (λ r. r.is_healthy) rs ≡ true
  unfolding failed_names
  failed_names-none [] h = refl
  failed_names-none (r ∷ rs) h = ground (arith, failed_names-none rs)

  unsorted-none : (l : List String) → sort_strings l ≡ [] → l ≡ []
  unfolding sort_strings insert_string
  unsorted-none [] h = refl
  unsorted-none (x ∷ xs) h = absurd (inserted x (sort_strings xs) h)
    where
      inserted : (x : String) (l : List String) → insert_string x l ≡ [] → ⊥
      inserted x [] h = cc
      inserted x (y ∷ ys) h = ground arith

  judge_failed-pass :
      (digest : String) (l : List String) → (judge_failed d e digest l).status ≡ pass → l ≡ []
  unfolding judge_failed
  judge_failed-pass digest [] h = refl
  judge_failed-pass digest (x ∷ xs) h = pass-not-fail h

  -- A guard that was passed.
  passing :
      (b : Bool) (x y : Report)
      → (x.status ≡ pass → ⊥)
      → (if b then x else y).status ≡ pass
      → (b ≡ false) × (y.status ≡ pass)
  passing true x y n h = absurd (n h)
  passing false x y n h = (refl, h)

  down_results :
      (c : Config) (digest : String) (a : Artifacts)
      → is_bound_evidence d e c digest a ≡ true
      → (valid_envelope d e digest a.down ≡ true)
        × (all (valid_target_result d a.down) a.down.results ≡ true)
  unfolding is_bound_evidence valid_envelope
  down_results c digest a bound = (ground (arith, bound), ground (arith, bound))

  -- The leak search ran, if the rest of the evidence is good.
  leak-searched :
      (c : Config) (digest : String) (a : Artifacts)
      → e.telecom_down ≡ some a.down
      → is_bound_evidence d e c digest a ≡ true
      → leak_of d e c digest e.telecom_down ≡ find_leak d e c a.down a.down.results
  unfolding leak_of
  leak-searched c digest a h bound =
      ap (leak_of d e c digest) h ∙ rw (down_results c digest a bound).0 refl

  judge_artifacts-pass :
      (c : Config) (digest : String) (a : Artifacts)
      → expected_context d e ≡ some (c, digest)
      → artifacts_of d e ≡ some a
      → e.telecom_down ≡ some a.down
      → leak_of d e c digest e.telecom_down ≡ none
      → (judge_artifacts d e c digest a).status ≡ pass
      → IsComplete d e c digest a
  unfolding judge_artifacts
  judge_artifacts-pass c digest a context gathered present none_leaked h =
      let (p₁, h₁) = passing (not (is_empty e.artifact_errors)) _ _ pass-not-inconclusive h in
      let (p₂, h₂) =
        passing (not (is_bound_evidence d e c digest a)) _ _ pass-not-inconclusive h₁ in
      let (p₃, h₃) =
        passing
          (not (same_configured_targets a.up.results c.approved_targets)
            || not (same_configured_targets a.down.results c.approved_targets))
          _ _ pass-not-inconclusive h₂ in
      let (p₄, h₄) = passing (not (valid_chronology a)) _ _ pass-not-inconclusive h₃ in
      let (p₅, h₅) =
        passing (not (same_state d a.before.state a.after.state)) _ _ pass-not-fail h₄ in
      let (p₆, h₆) = passing a.monitor.has_reconnected _ _ pass-not-fail h₅ in
      let bound : is_bound_evidence d e c digest a ≡ true = ground (arith, p₂) in
      let down : same_configured_targets a.down.results c.approved_targets ≡ true =
        ground (arith, p₃) in
      record {
        context = context;
        gathered = gathered;
        decoded = ground (arith, p₁);
        bound = bound;
        up_targets = ground (arith, p₃);
        down_targets = down;
        ordered = ground (arith, p₄);
        restored = ground (arith, p₅);
        steady = p₆;
        healthy = failed_names-none a.up.results (unsorted-none _ (judge_failed-pass digest _ h₆));
        closed =
            no_leak-closed c a.down a.down.results
              (sym (leak-searched c digest a present bound) ∙ none_leaked)
              (down_results c digest a bound).1
              (same_configured_targets-exact a.down.results c.approved_targets down);
      }

  gathered-down :
      (o₁ : Option Artifact) (o₂ o₃ : Option ProbeEvidence) (o₄ : Option DownMonitorEvidence)
      (o₅ : Option Artifact) {a : Artifacts}
      → gather d e o₁ o₂ o₃ o₄ o₅ ≡ some a
      → o₃ ≡ some a.down
  gathered-down none o₂ o₃ o₄ o₅ h = cc
  gathered-down (some b) none o₃ o₄ o₅ h = cc
  gathered-down (some b) (some u) none o₄ o₅ h = cc
  gathered-down (some b) (some u) (some w) none o₅ h = cc
  gathered-down (some b) (some u) (some w) (some m) none h = cc
  gathered-down (some b) (some u) (some w) (some m) (some f) h = cc

  gathered-IsComplete :
      (c : Config) (digest : String) (o : Option Artifacts)
      → expected_context d e ≡ some (c, digest)
      → artifacts_of d e ≡ o
      → leak_of d e c digest e.telecom_down ≡ none
      → (judge_complete d e c digest o).status ≡ pass
      → (a : Artifacts) × IsComplete d e c digest a
  unfolding judge_complete
  gathered-IsComplete c digest none context gathered closed h = pass-not-inconclusive h
  gathered-IsComplete c digest (some a) context gathered closed h = (
    a,
    judge_artifacts-pass c digest a context gathered (gathered-down _ _ _ _ _ gathered) closed h,
  )

  leak-IsComplete :
      (c : Config) (digest : String) (o : Option TargetResult)
      → expected_context d e ≡ some (c, digest)
      → leak_of d e c digest e.telecom_down ≡ o
      → (judge_leak d e c digest o).status ≡ pass
      → (a : Artifacts) × IsComplete d e c digest a
  unfolding judge_leak
  leak-IsComplete c digest none context closed h =
      gathered-IsComplete c digest (artifacts_of d e) context refl closed h
  leak-IsComplete c digest (some r) context closed h = pass-not-fail h

  context-IsComplete :
      (o : Option (Config × String))
      → expected_context d e ≡ o
      → (judge_expected d e o).status ≡ pass
      → (c : Config) × (digest : String) × (a : Artifacts) × IsComplete d e c digest a
  unfolding judge_expected
  context-IsComplete none context h = pass-not-inconclusive h
  context-IsComplete (some (c, digest)) context h =
      let (a, p) = leak-IsComplete c digest (leak_of d e c digest e.telecom_down) context refl h in
      (c, digest, a, p)

-- What a PASS is to prove of the forwarding: every approved target was healthy through telecom and
-- unreachable without it, which did not come back meanwhile, and the state before is that after.
pub record IsProven (d : VerdictEnv) (c : Config) (a : Artifacts) : Type 0 where
  pub forwarded : each_target (λ r. r.is_healthy) a.up.results c.approved_targets ≡ true
  pub closed : each_target (λ r. not r.is_reachable) a.down.results c.approved_targets ≡ true
  pub steady : a.monitor.has_reconnected ≡ false
  pub restored : IsRestored d a.before.state a.after.state

-- If `Evaluate` says PASS, then the evidence is complete, of one run and in order, every approved
-- target was healthy while telecom was up and none was reachable while it was down, telecom did not
-- reconnect, and the inventories before and after hold the same items, as often.
pub evaluate-IsProven :
    (d : VerdictEnv) (e : Evidence)
    → (evaluate d e).status ≡ pass
    → (c : Config) × (digest : String) × (a : Artifacts) × IsComplete d e c digest a
      × IsProven d c a
unfolding evaluate
evaluate-IsProven d e h =
    let (c, digest, a, p) = context-IsComplete d e (expected_context d e) refl h in
    (
      c,
      digest,
      a,
      p,
      record {
        forwarded =
            same_configured_targets-each _ a.up.results c.approved_targets p.up_targets p.healthy;
        closed =
            same_configured_targets-each _ a.down.results c.approved_targets p.down_targets
              p.closed;
        steady = p.steady;
        restored = same_state-IsRestored d a.before.state a.after.state p.restored;
      },
    )
