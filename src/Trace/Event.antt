-- ===== src/Trace/Event.antt =====
-- internal/traceevent/event.go: the diagnostic events, their approved words and their validation.
-- A time is a count of nanoseconds from Go's zero time, which is 0.
use Prim.Native.String.{len}
use overseas.Base.{
  ℕ, ℤ, is_zero, is_negative, String, Bool, false, Option, none, some, List, [], ◌∷◌, ◌&&◌, ◌||◌,
  not, str_eq, ltb, ◌==◌, if◌then◌else◌, is_some,
}

abbrev pub schema_version : ℕ
schema_version = 1

abbrev pub max_detail_bytes : ℕ
max_detail_bytes = 4096

pub record Residue : Type 0 where
  pub managed_rules : ℤ
  pub disabled_prepared_rules : ℤ
  pub product_routes : ℤ
  pub product_tuns : ℤ
  pub core_processes : ℤ
  pub snapshot : Bool
  pub snapshot_phase : String

-- `Residue.IsZero`
unfoldable pub residue_is_zero : Residue → Bool
residue_is_zero r =
    is_zero r.managed_rules
    && (is_zero r.product_routes
        && (is_zero r.product_tuns && (is_zero r.core_processes && not r.snapshot)))

pub record Event : Type 0 where
  pub schema : ℕ
  pub sequence : ℕ
  pub timestamp : ℕ
  pub is_utc : Bool
  pub generation : ℕ
  pub level : String
  pub component : String
  pub stage : String
  pub event : String
  pub elapsed_ms : Option ℤ
  pub message : String
  pub detail : String
  pub detail_truncated : Bool
  pub residue : Option Residue

pub record Batch : Type 0 where
  pub events : List Event
  pub next_sequence : ℕ
  pub has_more : Bool
  pub oldest_sequence : ℕ

abbrev pub approved_levels : List String
approved_levels = "info" ∷ "warning" ∷ "error" ∷ []

abbrev pub approved_events : List String
approved_events = "started" ∷ "succeeded" ∷ "failed" ∷ "state" ∷ []

abbrev pub approved_components : List String
approved_components =
    "controller" ∷ "network" ∷ "powershell" ∷ "core" ∷ "recovery" ∷ "service" ∷ "logging" ∷ []

abbrev pub approved_stages : List String
approved_stages =
    "request_received" ∷ "policy_validation" ∷ "binary_verification" ∷ "credential_load"
    ∷ "network_prepare" ∷ "network_fingerprint" ∷ "network_capture" ∷ "adapter_scan"
    ∷ "firewall_prepare" ∷ "firewall_enable" ∷ "firewall_verify" ∷ "firewall_publish"
    ∷ "active_store_verify" ∷ "emergency_protection" ∷ "config_render" ∷ "core_start" ∷ "core_ready"
    ∷ "tun_ready" ∷ "route_activation" ∷ "connected" ∷ "monitor_start" ∷ "core_stop"
    ∷ "automatic_restore" ∷ "network_restore" ∷ "residue_verify" ∷ "service_recovery"
    ∷ "logging_degraded" ∷ []

-- Membership in a `stringSet`.
abbrev pub is_member : String → List String → Bool
is_member w [] = false
is_member w (x ∷ xs) = str_eq x w || is_member w xs

has_negative_count : Option Residue → Bool
has_negative_count none = false
has_negative_count (some r) =
    is_negative r.managed_rules
    || (is_negative r.disabled_prepared_rules
        || (is_negative r.product_routes
            || (is_negative r.product_tuns || is_negative r.core_processes)))

abbrev has_negative_elapsed : Option ℤ → Bool
has_negative_elapsed none = false
has_negative_elapsed (some n) = is_negative n

-- `Validate`; `none` is the nil error. `trim_space` is `strings.TrimSpace`.
unfoldable pub validate : (String → String) → Event → Option String
unfolding has_negative_count
validate trim_space e =
    if not (e.schema == schema_version)
    then some "unsupported trace schema"
    else if e.sequence == 0
    then some "trace sequence is required"
    else if e.timestamp == 0 || not e.is_utc
    then some "trace timestamp must be UTC"
    else if not (is_member e.level approved_levels)
    then some "trace level is not approved"
    else if not (is_member e.component approved_components)
    then some "trace component is not approved"
    else if not (is_member e.stage approved_stages)
    then some "trace stage is not approved"
    else if not (is_member e.event approved_events)
    then some "trace event is not approved"
    else if str_eq (trim_space e.message) ""
    then some "trace message is required"
    else if ltb max_detail_bytes (len e.detail)
    then some "trace detail exceeds limit"
    else if has_negative_elapsed e.elapsed_ms
    then some "trace elapsed time is negative"
    else if str_eq e.event "started" && is_some e.elapsed_ms
    then some "started trace cannot have elapsed time"
    else if str_eq e.event "started" && is_some e.residue
    then some "started trace cannot have residue"
    else if has_negative_count e.residue
    then some "trace residue count is negative"
    else none
