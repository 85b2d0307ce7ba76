-- ===== src/Agent/Env.antt =====
-- internal/agent/controller.go: what the controller is built over, and the state that it keeps.
-- The network manager, the process supervisor and the other dependencies are interfaces in the
-- source; here they are functions over a world `W`, which they read and change as they like.
-- `N` is the type of a network snapshot (`any`), `I` that of a process instance.
use overseas.Base.{ℕ, ℤ, String, Bool, Option, List}
use overseas.AccessModel.Model.{Policy, CredentialRef}
use overseas.Trace.Event.{Event, Residue}
use overseas.Agent.Status.{Status}

-- An error value: its text, what `errors.As` finds of a staged diagnostic (stage and detail), and
-- what `errors.Is` answers for the sentinels of prepared.go.
pub record GoError : Type 0 where
  pub text : String
  pub diagnostic : Option (String × String)
  pub is_vpn_conflict : Bool
  pub is_tun_mismatch : Bool
  pub is_tun_not_found : Bool
  pub is_network_changed : Bool
  pub is_firewall_audit : Bool

-- A dependency's call: it ends with an error or a value, and leaves a new world.
pub data Result (A : Type 0) : Type 0 where
  ok : A → Result A
  err : GoError → Result A

pub record PreparedNetwork : Type 0 where
  pub generation : ℕ
  pub fingerprint : String
  pub adapter_count : ℤ
  pub rule_count : ℤ

pub record Credential : Type 0 where
  pub method : String
  pub password : List ℕ
  pub expires_at : ℕ

pub record Termination : Type 0 where
  pub error : Option GoError
  pub proven : Bool

-- What `ProcessSupervisor.Start` returns: the instance, and the `ProcessStartResult`.
pub record Started (I : Type 0) : Type 0 where
  pub instance_handle : Option I
  pub error : Option GoError
  pub termination_proven : Bool

pub record NetworkManager (W N : Type 0) : Type 0 where
  pub prepare : W → Result PreparedNetwork × W
  pub capture : PreparedNetwork → W → Result N × W
  pub enable_protection : PreparedNetwork → W → Option GoError × W
  pub wait_tun_ready : W → Option GoError × W
  pub activate_tun_routes : W → Option GoError × W
  pub start_monitor : PreparedNetwork → W → Option GoError × W
  pub restore : N → W → Option GoError × W
  pub reconcile : W → Option GoError × W
  pub residue : Option (W → Result Residue × W)  -- of a `residueReporter`

pub record Deps (W N I : Type 0) : Type 0 where
  pub policy : Policy
  pub executable_path : String
  pub config_path : String
  pub network : Option (NetworkManager W N)
  pub start_process : Option (String → String → W → Started I × W)  -- of `process`, unless nil
  pub ready : I → W → Option GoError × W  -- the methods of a `ProcessInstance`
  pub stop : I → W → Termination × W
  pub validate_policy : Policy → W → Option GoError × W
  pub verify_executable : Option (String → W → Option GoError × W)
  pub load_credential : Option (CredentialRef → W → Result Credential × W)
  pub render_config : Option (Policy → Credential → W → Result (List ℕ) × W)
  pub write_config : Option (String → List ℕ → W → Option GoError × W)
  pub now : W → ℕ × W  -- nanoseconds
  pub context_error : W → Option GoError × W  -- `ctx.Err()` of the running operation
  pub sanitize : String → String × Bool  -- `traceevent.SanitizeDetail`
  pub format_prepared : PreparedNetwork → String  -- "generation=%d adapters=%d rules=%d"
  pub format_rules : PreparedNetwork → String  -- "rules=%d"
  pub has_trace : Bool  -- `Trace` is not nil

pub data TransitionKind : Type 0 where
  connect disconnect restore : TransitionKind

pub data LineQuality : Type 0 where
  unknown good slow failed : LineQuality

-- The goroutine that `startRuntimeMonitor` leaves behind.
pub data MonitorTask : Type 0 where
  idle : MonitorTask  -- none was started for the present `monitorDone`
  attending : MonitorTask  -- `monitorLifecycle` runs, or has ended: `done` is or will be closed
  unattended : MonitorTask  -- `StartMonitor` failed: no goroutine closes `done`

-- The calls that the controller makes to the system, with their outcomes.
pub data Call : Type 0 where
  prepared captured protected tun_ready routed restored reconciled : Bool → Call
  rendered written readied : Bool → Call
  core_started : Bool → Bool → Call  -- did it succeed; is termination proven
  core_stopped : Bool → Call  -- is termination proven
  residue_read : Bool → Call
  monitored : Bool → Call

-- The fields of `Controller` under its mutex, the world, and two records of what was done: the
-- calls to the system and the events handed to the trace sink, newest first.
pub record Sys (W N I : Type 0) : Type 0 where
  pub status : Status
  pub generation : ℕ
  pub transition : Option TransitionKind
  pub snapshot : Option N  -- `snapshot` with `hasSnapshot`
  pub process_started : Bool
  pub process_instance : Option I
  pub monitor_done : Bool  -- `monitorCancel` and `monitorDone` are set
  pub reconciled : Bool
  pub diagnostic_stage : String
  pub diagnostic_detail : String
  pub line_quality : LineQuality
  pub connected_at : ℕ
  pub task : MonitorTask
  pub world : W
  pub calls : List Call
  pub trace : List Event
