-- ===== src/Agent/Controller/Validity.antt =====
-- internal/agent/controller.go: what holds of the controller whenever no operation runs.
use overseas.Base.{Bool, true, false, none, ◌≡◌, is_some, arith, []}
use overseas.AccessModel.Model.{
  ConnectionState, prepared, connected, disconnected, failed_safe, is_connected,
}
use overseas.Agent.Status.{plain_status}
use overseas.Agent.Env.{unknown, idle, attending, Sys}
use overseas.Agent.Safety.Log.{Core, core, may_run, IsOrdered}

-- The states in which the controller may hold a snapshot or a core.
abbrev pub is_holding : ConnectionState → Bool
is_holding connected = true
is_holding failed_safe = true
is_holding _ = false

-- The states in which no operation is under way.
abbrev pub is_at_rest : ConnectionState → Bool
is_at_rest disconnected = true
is_at_rest prepared = true
is_at_rest connected = true
is_at_rest failed_safe = true
is_at_rest _ = false

module _ {N I : Type 0} where
  pub record IsValid (s : Core N I) : Type 0 where
    pub free : s.transition ≡ none
    pub at_rest : is_at_rest s.status.state ≡ true
    pub ordered : IsOrdered s.calls
    pub owned : may_run s.calls ≡ true → s.process_started ≡ true
    pub with_instance : s.process_started ≡ true → is_some s.process_instance ≡ true
    pub process_held : s.process_started ≡ true → is_holding s.status.state ≡ true
    pub snapshot_held : is_some s.snapshot ≡ true → is_holding s.status.state ≡ true
    pub watched : s.monitor_done ≡ true → is_connected s.status.state ≡ true
    pub connected_holds :
        is_connected s.status.state ≡ true
        → (s.process_started ≡ true) × (is_some s.snapshot ≡ true)

module _ {W N I : Type 0} where
  -- The channel that a disconnect would wait for is closed by a goroutine.
  abbrev pub IsAttended : Sys W N I → Type 0
  IsAttended s = s.monitor_done ≡ true → s.task ≡ attending

  -- `NewController`
  unfoldable pub new_controller : W → Sys W N I
  new_controller w = record {
    status = plain_status disconnected "";
    generation = 0;
    transition = none;
    snapshot = none;
    process_started = false;
    process_instance = none;
    monitor_done = false;
    reconciled = false;
    diagnostic_stage = "";
    diagnostic_detail = "";
    line_quality = unknown;
    connected_at = 0;
    task = idle;
    world = w;
    calls = [];
    trace = [];
  }

  -- A new controller is valid.
  pub new_controller-IsValid : (w : W) → IsValid (core (new_controller w))
  unfolding new_controller
  new_controller-IsValid w = ground arith
