-- ===== src/Network/Monitor.antt =====
-- internal/agent/network_monitor.go and prepared.go: the runtime monitor of a prepared generation. Its
-- goroutine is a fold over the events that its `select` receives; the context's state and what a
-- read or an audit answers belong to an event.
pub mod Watches
pub mod Drifts
mod Tests
use overseas.Base.{
  ℕ, ℤ, pos, leb_int, String, Bool, true, false, Option, none, some, List, [], ◌∷◌, ◌++◌, ◌&&◌,
  ◌||◌, not, str_eq, ◌==◌, if◌then◌else◌,
}
use overseas.Agent.Env.{PreparedNetwork}

-- `validatePreparedNetwork`; the regular expression is a parameter.
unfoldable pub validate_prepared_network : (String → Bool) → PreparedNetwork → Option String
validate_prepared_network is_sha256 p =
    if p.generation == 0
    then some "prepared generation is required"
    else if not (is_sha256 p.fingerprint)
    then some "prepared fingerprint must be lowercase SHA-256"
    else if leb_int p.adapter_count (pos 0)
    then some "prepared adapter count must be positive"
    else none

unfoldable pub check_cached : ℕ → Option ℕ → Option String
check_cached generation none = some "prepared generation is not available for monitoring"
check_cached generation (some cached) =
    if not (cached == generation)
    then some "prepared generation is not available for monitoring"
    else none

unfoldable pub check_start : Option String → PreparedNetwork → Option ℕ → Option String
check_start (some e) p cached = some e
check_start none p cached = check_cached p.generation cached

-- `StartMonitor`, up to its goroutine: why it does not start one. `cached` is the generation of the
-- prepared state in memory.
unfoldable pub start_monitor : (String → Bool) → PreparedNetwork → Option ℕ → Option String
start_monitor is_sha256 p cached = check_start (validate_prepared_network is_sha256 p) p cached

pub data MonitorCause : Type 0 where
  network_changed firewall_audit_failed : MonitorCause

-- What the monitor does to others.
pub data MonitorAction : Type 0 where
  emergency_armed closed : MonitorAction
  delivered : MonitorCause → MonitorAction

-- `context_done`: ctx.Done. A tick of the fingerprints has whether the context has ended, and the
-- fingerprint unless the read failed; one of the audits has whether the context has ended before,
-- whether the audit passed, and whether the context has ended after.
pub data MonitorEvent : Type 0 where
  context_done : MonitorEvent
  fingerprint_tick : Bool → Option String → MonitorEvent
  audit_tick : Bool → Bool → Bool → MonitorEvent

-- `baseline` is "" while it is not known; the log has the oldest action first.
pub record Watch : Type 0 where
  pub baseline : String
  pub is_running : Bool
  pub log : List MonitorAction

unfoldable pub baseline_of : Option String → String
baseline_of none = ""
baseline_of (some fingerprint) = fingerprint

-- The state in which the loop is entered, from what the first read answered.
unfoldable pub begin_watch : Option String → Watch
begin_watch first = record { baseline = baseline_of first; is_running = true; log = [] }

-- A return from the loop, after the actions.
abbrev pub leave : List MonitorAction → Watch → Watch
leave actions w = record w { is_running = false; log = w.log ++ actions }

-- `preparedFirewallMonitoringApplies` is the parameter `applies`.
module _ (applies : Bool) where
  unfoldable pub compare_fingerprint : Option String → Watch → Watch
  compare_fingerprint none w = w
  compare_fingerprint (some fingerprint) w =
      if not (str_eq w.baseline "") && not (str_eq fingerprint w.baseline)
      then leave
          (if applies
            then emergency_armed ∷ delivered network_changed ∷ closed ∷ []
            else delivered network_changed ∷ closed ∷ [])
          w
      else if str_eq w.baseline ""
      then record w { baseline = fingerprint }
      else w

  unfoldable pub judge_audit : Bool → Bool → Watch → Watch
  judge_audit passed ended_after w =
      if passed
      then w
      else if ended_after
      then leave [] w
      else leave (emergency_armed ∷ delivered firewall_audit_failed ∷ closed ∷ []) w

  -- A round of the loop.
  unfoldable pub receive_event : MonitorEvent → Watch → Watch
  receive_event context_done w = leave [] w
  receive_event (fingerprint_tick ended answer) w =
      if ended then leave [] w else compare_fingerprint answer w
  receive_event (audit_tick ended passed ended_after) w =
      if not applies then w else if ended then leave [] w else judge_audit passed ended_after w

  -- The loop, over the events it receives.
  unfoldable pub watch : List MonitorEvent → Watch → Watch
  watch [] w = w
  watch (event ∷ later) w =
      let next = receive_event event w in if w.is_running then watch later next else w
