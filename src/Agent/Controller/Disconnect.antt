-- ===== src/Agent/Controller/Disconnect.antt =====
-- internal/agent/controller.go: `Disconnect`, `Recover`, and the restoration that the runtime monitor
-- starts.
pub mod Safety
pub mod Stranded
use overseas.Base.{
  ℕ, ◌+◌, ◌%◌, ◌^◌, String, Bool, true, false, Option, none, some, ◌&&◌, ◌||◌, not, is_some, ◌==◌,
  if◌then◌else◌, str_eq,
}
use overseas.Base.Proc.{Proc, pure, gets, modify, ◌>>=◌, ◌>>◌}
use overseas.AccessModel.Model.{
  ConnectionState, connecting, restoring, is_connected, is_failed_safe,
}
use overseas.Agent.Status.{
  Status, ErrorCode, no_error, readiness_lost, network_changed, firewall_verify_failed, Phase,
  fingerprint_snapshot, connection_total_steps, plain_status, prepared_status, safe_failure,
  canceled_status,
}
use overseas.Agent.Env.{
  GoError, Termination, PreparedNetwork, NetworkManager, Deps, TransitionKind, connect, disconnect,
  restore, LineQuality, unknown, MonitorTask, attending, unattended, idle, Call, monitored, Sys,
}
use overseas.Agent.Tracing.{
  on_world, log_call, event_literal, emit_trace, trace_start, trace_success, trace_failure,
  trace_state_failure, new_error, diagnostic_stage,
}
use overseas.Agent.Restore.{
  DisconnectOutcome, ConnectOutcome, is_nil, restored_with, restore_transaction,
}
use overseas.Agent.Connect.{run_connect}
use overseas.Agent.Controller.Blocks.{
  Reply, reply, waiting, next_generation, begin_connect, publish_connect, begin_disconnect,
  publish_disconnect, begin_restore, publish_restore, monitor_failure_code,
}

pub data MonitorEvent : Type 0 where
  core_exited : Termination → MonitorEvent
  protection_failed : Option GoError → MonitorEvent
  context_done : MonitorEvent

module _ {W N I : Type 0} (d : Deps W N I) where
  unfoldable pub trace_recovered : ℕ → Bool → ℕ → DisconnectOutcome → Proc (Sys W N I) Unit
  trace_recovered generation false started_at outcome = pure tt
  trace_recovered generation true started_at outcome =
      if outcome.is_restored
      then trace_success d generation "recovery" "service_recovery" started_at "服务遗留状态恢复完成" "" none
      else trace_failure d generation "recovery" "service_recovery" started_at "服务恢复失败"
          (if is_nil outcome.error
            then some (new_error "service recovery could not prove a safe state")
            else outcome.error)
          none

  unfoldable pub announce : ℕ → Bool → Proc (Sys W N I) ℕ
  announce generation true = trace_start d generation "recovery" "service_recovery" "恢复服务遗留网络状态"
  announce generation false = do
    emit_trace d
        (event_literal d generation "info" "controller" "request_received" "state" "收到断开请求")
    pure 0

  unfoldable pub restore_if_needed : ℕ → Sys W N I → Option (DisconnectOutcome × Sys W N I)
  restore_if_needed generation s =
      if not (is_some s.snapshot) && (not s.process_started && s.reconciled)
      then pure (restored_with "海外访问已关闭") s
      else restore_transaction d generation s.process_started s.process_instance s.snapshot s

  unfoldable pub run_disconnect : ℕ → Bool → Proc (Sys W N I) DisconnectOutcome
  run_disconnect generation recovery = do
    started_at ← announce generation recovery
    outcome ← restore_if_needed generation
    trace_recovered generation recovery started_at outcome
    pure outcome

  unfoldable pub disconnect_generation : ℕ → Bool → Proc (Sys W N I) Reply
  disconnect_generation generation recovery = do
    outcome ← run_disconnect generation recovery
    modify (publish_disconnect generation outcome)
    pure (reply outcome.status)

  -- The loop of `disconnect`. An active connection is canceled: its world reports an ended context
  -- from then on.
  unfoldable pub disconnect_admitted : Bool → Option TransitionKind → Proc (Sys W N I) Reply
  disconnect_admitted recovery (some kind) s = some (waiting kind, s)
  disconnect_admitted recovery none s =
      if recovery && (s.reconciled && (not (is_some s.snapshot) && not s.process_started))
      then some (reply s.status, s)
      else disconnect_generation (next_generation s.generation) recovery (begin_disconnect s)

  -- `disconnect`: `Disconnect` is `recovery = false`, `Recover` is `recovery = true`.
  unfoldable pub disconnect_request : Bool → Proc (Sys W N I) Reply
  disconnect_request recovery s = disconnect_admitted recovery s.transition s

  unfoldable pub restore_generation :
      ℕ → ErrorCode → Option GoError → Bool → Option I → Option N → Proc (Sys W N I) Unit
  restore_generation generation code reason started i snapshot = do
    trace_state_failure d generation "core" "connected" "安全连接运行状态已丢失" reason
    outcome ← restore_transaction d generation started i snapshot
    modify (publish_restore generation code outcome)

  -- `automaticRestore`
  unfoldable pub automatic_restore : ℕ → ErrorCode → Option GoError → Proc (Sys W N I) Unit
  automatic_restore generation code reason s =
      if not (s.generation == generation) || not (is_connected s.status.state)
      then some (tt, s)
      else if is_some s.transition
      then some (tt, s)
      else restore_generation generation code reason s.process_started s.process_instance s.snapshot
          (begin_restore s)

  -- `monitorLifecycle`: what its `select` takes.
  unfoldable pub monitor_lifecycle : ℕ → MonitorEvent → Proc (Sys W N I) Unit
  monitor_lifecycle generation (core_exited termination) =
      let reason : GoError = elim termination.error [
        | none ↦ new_error "core process exited unexpectedly"
        | some e ↦ e
      ] in
      automatic_restore generation (monitor_failure_code reason) (some reason)
  monitor_lifecycle generation (protection_failed failure) =
      let reason : GoError = elim failure [
        | none ↦ new_error "network protection readiness was lost"
        | some e ↦ e
      ] in
      automatic_restore generation (monitor_failure_code reason) (some reason)
  monitor_lifecycle generation context_done = pure tt
