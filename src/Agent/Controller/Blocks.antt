-- ===== src/Agent/Controller/Blocks.antt =====
-- internal/agent/controller.go: the blocks that run under the controller's mutex.
use overseas.Base.{
  ℕ, ◌+◌, ◌%◌, ◌^◌, Bool, true, false, none, some, ◌||◌, not, ◌==◌, if◌then◌else◌, str_eq,
}
use overseas.AccessModel.Model.{connecting, restoring, is_connected}
use overseas.Agent.Status.{
  Status, ErrorCode, no_error, readiness_lost, network_changed, firewall_verify_failed,
  fingerprint_snapshot, connection_total_steps, plain_status, safe_failure, canceled_status,
}
use overseas.Agent.Env.{
  GoError, TransitionKind, connect, disconnect, restore, LineQuality, unknown, idle, Sys,
}
use overseas.Agent.Tracing.{diagnostic_stage}
use overseas.Agent.Restore.{DisconnectOutcome, ConnectOutcome}

-- What a caller of `Connect` or `Disconnect` meets: an answer at once, or an active transition.
pub data Reply : Type 0 where
  reply : Status → Reply
  waiting : TransitionKind → Reply

abbrev pub next_generation : ℕ → ℕ
next_generation g = (g + 1) % 2 ^ 64

-- `waitForTransition`: at the wake-up, whether the transition is done or the caller's context is.
unfoldable pub wait_for_transition : Bool → Status → Status
unfolding canceled_status
wait_for_transition true current = current
wait_for_transition false current = canceled_status current

unfoldable pub monitor_failure_code : GoError → ErrorCode
monitor_failure_code reason =
    if reason.is_network_changed
    then network_changed
    else if str_eq (diagnostic_stage reason) "firewall_verify" || reason.is_firewall_audit
    then firewall_verify_failed
    else readiness_lost

module _ {W N I : Type 0} where
  -- The block under the mutex that takes the slot for a connection.
  unfoldable pub begin_connect : Sys W N I → Sys W N I
  begin_connect s = record s {
    generation = next_generation s.generation;
    line_quality = unknown;
    connected_at = 0;
    transition = some connect;
    status = record {
      state = connecting;
      error_code = no_error;
      message = "正在建立安全连接";
      phase = fingerprint_snapshot;
      step = 1;
      total_steps = connection_total_steps;
      elapsed_ms = 0;
    };
    diagnostic_stage = "";
    diagnostic_detail = "";
  }

  -- The block that publishes the outcome; `time` is read only for a connected outcome.
  unfoldable pub publish_connect : ℕ → ℕ → ConnectOutcome N I → Sys W N I → Sys W N I
  publish_connect generation time outcome s =
      if s.generation == generation
      then record s {
        status = outcome.status;
        connected_at = if is_connected outcome.status.state then time else s.connected_at;
        process_started = outcome.process_started;
        process_instance = outcome.instance_handle;
        snapshot = outcome.snapshot;
        reconciled = outcome.is_restored || s.reconciled;
        monitor_done = is_connected outcome.status.state || s.monitor_done;
        transition = none;
      }
      else record s { transition = none }

  unfoldable pub begin_disconnect : Sys W N I → Sys W N I
  begin_disconnect s = record s {
    generation = next_generation s.generation;
    line_quality = unknown;
    connected_at = 0;
    transition = some disconnect;
    status = plain_status restoring "正在恢复普通网络";
  }

  unfoldable pub publish_disconnect : ℕ → DisconnectOutcome → Sys W N I → Sys W N I
  publish_disconnect generation outcome s =
      if s.generation == generation
      then if outcome.is_restored
        then record s {
          status = outcome.status;
          snapshot = none;
          process_started = false;
          process_instance = none;
          reconciled = true;
          diagnostic_stage = "";
          diagnostic_detail = "";
          transition = none;
        }
        else record s { status = outcome.status; transition = none }
      else record s { transition = none }

  unfoldable pub begin_restore : Sys W N I → Sys W N I
  begin_restore s = record s {
    transition = some restore;
    status = plain_status restoring "正在恢复普通网络";
    line_quality = unknown;
    connected_at = 0;
    monitor_done = false;
    task = idle;
  }

  unfoldable pub publish_restore : ℕ → ErrorCode → DisconnectOutcome → Sys W N I → Sys W N I
  publish_restore generation code outcome s =
      if s.generation == generation
      then if outcome.is_restored
        then record s {
          status = safe_failure code;
          snapshot = none;
          process_started = false;
          process_instance = none;
          reconciled = true;
          transition = none;
        }
        else record s { status = outcome.status; transition = none }
      else record s { transition = none }

  -- `UpdateLineQuality`; the four words that it accepts are the constructors.
  unfoldable pub update_line_quality : ℕ → LineQuality → Sys W N I → Bool × Sys W N I
  update_line_quality generation quality s =
      if not (generation == s.generation) || not (is_connected s.status.state)
      then (false, s)
      else (true, record s { line_quality = quality })
