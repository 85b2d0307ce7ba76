-- ===== src/Verdict/Evidence.antt =====
-- internal/verdict/verdict.go: the evidence of a forwarding proof and the report on it. A time is a
-- number of nanoseconds, and 0 is Go's zero time.
use overseas.Base.{ℕ, ℤ, String, Bool, Option, List}
use overseas.Config.{Config, ConfigEnv}
use overseas.Inventory.{Interface, Route, Nat, FirewallRule, Artifact}

pub record TargetResult : Type 0 where
  pub target_name : String
  pub target_url : String
  pub is_reachable : Bool
  pub is_healthy : Bool
  pub started_at : ℕ
  pub finished_at : ℕ

pub record ProbeEvidence : Type 0 where
  pub schema_version : ℤ
  pub run_id : String
  pub config_digest : String
  pub started_at : ℕ
  pub finished_at : ℕ
  pub results : List TargetResult
  pub invalid_records : ℤ

pub record MonitorRoute : Type 0 where
  pub destination_prefix : String
  pub next_hop : String
  pub state : String

pub record DownMonitorEvidence : Type 0 where
  pub schema_version : ℤ
  pub run_id : String
  pub config_digest : String
  pub started_at : ℕ
  pub finished_at : ℕ
  pub sample_count : ℤ
  pub telecom_route_prefixes : List String
  pub has_reconnected : Bool
  pub reconnect_at : ℕ
  pub is_interface_up : Bool
  pub reconnect_routes : List MonitorRoute

pub record Evidence : Type 0 where
  pub run_id : String
  pub config : Option Config
  pub evaluated_at : ℕ
  pub inventory_before : Option Artifact
  pub telecom_up : Option ProbeEvidence
  pub telecom_down : Option ProbeEvidence
  pub down_monitor : Option DownMonitorEvidence
  pub inventory_after : Option Artifact
  pub artifact_errors : List String

-- The artifacts of a complete evidence.
pub record Artifacts : Type 0 where
  pub before : Artifact
  pub up : ProbeEvidence
  pub down : ProbeEvidence
  pub monitor : DownMonitorEvidence
  pub after : Artifact

pub data Verdict : Type 0 where
  pass fail inconclusive : Verdict

pub data VerdictCode : Type 0 where
  fail_leak invalid_evidence fail_state_drift fail_telecom_reconnected fail_no_forward all_passed :
      VerdictCode

pub record Report : Type 0 where
  pub status : Verdict
  pub code : VerdictCode
  pub message : String
  pub run_id : String
  pub config_digest : String
  pub evaluated_at : ℕ

-- encoding/json of the items of an inventory, and `%q` of fmt.
pub record VerdictEnv : Type 0 where
  pub config : ConfigEnv
  pub encode_interface : Interface → String
  pub encode_route : Route → String
  pub encode_nat : Nat → String
  pub encode_rule : FirewallRule → String
  pub quote : String → String
