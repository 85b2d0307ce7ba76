-- ===== src/Verdict/Evaluate.antt =====
-- internal/verdict/verdict.go: `Evaluate`.
use Prim.Native.String.{◌++◌ as ◌then◌}
use overseas.Base.{
  is_zero, String, Bool, Option, none, some, List, [], ◌∷◌, ◌&&◌, ◌||◌, not, if◌then◌else◌,
  is_empty, sort_strings,
}
use overseas.Config.{Config}
use overseas.Inventory.{Artifact}
use overseas.Verdict.Evidence.{
  TargetResult, ProbeEvidence, DownMonitorEvidence, Evidence, Artifacts, Verdict, pass, fail,
  inconclusive, VerdictCode, fail_leak, invalid_evidence, fail_state_drift,
  fail_telecom_reconnected, fail_no_forward, all_passed, Report, VerdictEnv,
}
use overseas.Verdict.SameState.{same_state}
use overseas.Verdict.Checks.{
  expected_context, valid_envelope, valid_target_result, valid_inventory, valid_monitor,
  valid_chronology, exact_configured_target, same_configured_targets,
}

-- `makeReport`
abbrev pub make_report : Evidence → String → Verdict → VerdictCode → String → Report
make_report e digest status code message = record {
  status = status;
  code = code;
  message = message;
  run_id = e.run_id;
  config_digest = digest;
  evaluated_at = e.evaluated_at;
}

abbrev pub refuse : Evidence → String → String → Report
refuse e digest message = make_report e digest inconclusive invalid_evidence message

module _ (d : VerdictEnv) (e : Evidence) where
  -- A result of a target that was reached while telecom was down.
  abbrev pub is_leak : Config → ProbeEvidence → TargetResult → Bool
  is_leak c probe r =
      valid_target_result d probe r
      && (exact_configured_target r c.approved_targets && r.is_reachable)

  unfoldable pub find_leak : Config → ProbeEvidence → List TargetResult → Option TargetResult
  find_leak c probe [] = none
  find_leak c probe (r ∷ rs) =
      let later = find_leak c probe rs in if is_leak c probe r then some r else later

  unfoldable pub leak_of : Config → String → Option ProbeEvidence → Option TargetResult
  leak_of c digest none = none
  leak_of c digest (some probe) =
      if valid_envelope d e digest probe then find_leak c probe probe.results else none

  abbrev pub gather :
      Option Artifact
      → Option ProbeEvidence
      → Option ProbeEvidence
      → Option DownMonitorEvidence
      → Option Artifact
      → Option Artifacts
  gather (some before) (some up) (some down) (some monitor) (some after) =
      some (record { before = before; up = up; down = down; monitor = monitor; after = after })
  gather _ _ _ _ _ = none

  abbrev pub artifacts_of : Option Artifacts
  artifacts_of =
      gather e.inventory_before e.telecom_up e.telecom_down e.down_monitor e.inventory_after

  -- The names of the targets that were not healthy.
  unfoldable pub failed_names : List TargetResult → List String
  failed_names [] = []
  failed_names (r ∷ rs) =
      let later = failed_names rs in if not r.is_healthy then r.target_name ∷ later else later

  unfoldable pub judge_failed : String → List String → Report
  judge_failed digest [] =
      make_report e digest pass all_passed
        "approved-target forwarding worked, failed closed under continuous monitoring, and exact network state was restored"
  judge_failed digest (name ∷ later) = make_report e digest fail fail_no_forward (
      "approved target "
      then (d.quote name then " did not return a healthy HTTPS response while telecom was up"))

  unfoldable pub is_bound_evidence : Config → String → Artifacts → Bool
  is_bound_evidence c digest a =
      valid_inventory e c digest a.before
      && ((valid_envelope d e digest a.up && is_zero a.up.invalid_records)
          && ((valid_envelope d e digest a.down && is_zero a.down.invalid_records)
              && (valid_monitor e c digest a.monitor && valid_inventory e c digest a.after)))

  unfoldable pub judge_artifacts : Config → String → Artifacts → Report
  judge_artifacts c digest a =
      if not (is_empty e.artifact_errors)
      then refuse e digest "one or more evidence artifacts could not be decoded strictly"
      else if not (is_bound_evidence c digest a)
      then refuse e digest "evidence identity, freshness, or structure is invalid"
      else if not (same_configured_targets a.up.results c.approved_targets)
          || not (same_configured_targets a.down.results c.approved_targets)
      then refuse e digest
          "probe evidence must contain each exact configured target name and URL once"
      else if not (valid_chronology a)
      then refuse e digest "evidence capture chronology is invalid"
      else if not (same_state d a.before.state a.after.state)
      then make_report e digest fail fail_state_drift
          "interface, route, NAT, or firewall inventory changed after rollback"
      else if a.monitor.has_reconnected
      then make_report e digest fail fail_telecom_reconnected
          "telecom interface or configured external/default route reappeared while the native probe was running"
      else judge_failed digest (sort_strings (failed_names a.up.results))

  unfoldable pub judge_complete : Config → String → Option Artifacts → Report
  judge_complete c digest none =
      refuse e digest "validated configuration and all five bound evidence artifacts are required"
  judge_complete c digest (some a) = judge_artifacts c digest a

  unfoldable pub judge_leak : Config → String → Option TargetResult → Report
  judge_leak c digest none = judge_complete c digest artifacts_of
  judge_leak c digest (some r) = make_report e digest fail fail_leak (
      "approved target "
      then (d.quote r.target_name then " remained reachable while telecom was down"))

  unfoldable pub judge_expected : Option (Config × String) → Report
  judge_expected none =
      refuse e "" "validated configuration and all five bound evidence artifacts are required"
  judge_expected (some (c, digest)) = judge_leak c digest (leak_of c digest e.telecom_down)

  -- `Evaluate`
  unfoldable pub evaluate : Report
  evaluate = judge_expected (expected_context d e)
