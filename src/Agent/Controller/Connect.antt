-- ===== src/Agent/Controller/Connect.antt =====
-- internal/agent/controller.go: `Connect`, with the start of the runtime monitor.
pub mod Safety
pub mod Monitored
use overseas.Base.{
  ℕ, ◌+◌, ◌%◌, ◌^◌, String, Bool, true, false, Option, none, some, ◌&&◌, ◌||◌, not, is_some, ◌==◌,
  if◌then◌else◌, str_eq,
}
use overseas.Base.Proc.{Proc, pure, gets, modify, ◌>>=◌, ◌>>◌}
use overseas.AccessModel.Model.{
  ConnectionState, connecting, restoring, is_connected, is_failed_safe,
}
use overseas.Agent.Status.{
  Status, ErrorCode, no_error, readiness_lost, network_changed, firewall_verify_failed, Phase,
  fingerprint_snapshot, connection_total_steps, plain_status, prepared_status, safe_failure,
  canceled_status,
}
use overseas.Agent.Env.{
  GoError, PreparedNetwork, NetworkManager, Deps, TransitionKind, connect, disconnect, restore,
  LineQuality, unknown, MonitorTask, attending, unattended, idle, Call, monitored, Sys,
}
use overseas.Agent.Tracing.{
  on_world, log_call, event_literal, emit_trace, trace_start, trace_success, trace_failure,
  trace_state_failure, new_error, diagnostic_stage,
}
use overseas.Agent.Restore.{
  DisconnectOutcome, ConnectOutcome, is_nil, restored_with, restore_transaction,
}
use overseas.Agent.Connect.{run_connect}
use overseas.Agent.Controller.Blocks.{
  Reply, reply, waiting, next_generation, begin_connect, publish_connect, begin_disconnect,
  publish_disconnect, begin_restore, publish_restore, monitor_failure_code,
}

module _ {W N I : Type 0} (d : Deps W N I) where
  unfoldable pub conclude_monitor : ℕ → ℕ → Option GoError → Proc (Sys W N I) Unit
  conclude_monitor generation traced_at (some e) = do
    trace_failure d generation "network" "monitor_start" traced_at "运行期监控启动失败" (some e) none
    modify (λ s. record s { task = unattended })
  conclude_monitor generation traced_at none = do
    trace_success d generation "network" "monitor_start" traced_at "运行期监控已启动" "" none
    modify (λ s. record s { task = attending })

  -- `startRuntimeMonitor`, run for a connected outcome: there is a network manager then.
  unfoldable pub start_runtime_monitor :
      ℕ → Option (NetworkManager W N) → Option PreparedNetwork → Proc (Sys W N I) Unit
  start_runtime_monitor generation (some n) (some ready) = do
    traced_at ← trace_start d generation "network" "monitor_start" "正在启动运行期监控"
    e ← on_world (n.start_monitor ready)
    log_call (monitored (is_nil e))
    conclude_monitor generation traced_at e
  start_runtime_monitor generation _ _ = pure tt

  unfoldable pub finish_connect : ℕ → ConnectOutcome N I → Proc (Sys W N I) Reply
  finish_connect generation outcome =
      if is_connected outcome.status.state
      then (do
        time ← on_world d.now
        modify (publish_connect generation time outcome)
        start_runtime_monitor generation d.network outcome.prepared
        pure (reply outcome.status))
      else do modify (publish_connect generation 0 outcome); pure (reply outcome.status)

  unfoldable pub connect_generation : ℕ → Proc (Sys W N I) Reply
  connect_generation generation = do
    emit_trace d
        (event_literal d generation "info" "controller" "request_received" "state" "收到连接请求")
    started_at ← on_world d.now
    outcome ← run_connect d generation started_at
    finish_connect generation outcome

  -- The loop of `Connect`, by the transition that it finds active.
  unfoldable pub connect_admitted : Option TransitionKind → Proc (Sys W N I) Reply
  connect_admitted (some kind) s = some (waiting kind, s)
  connect_admitted none s =
      if is_connected s.status.state || is_failed_safe s.status.state
      then some (reply s.status, s)
      else connect_generation (next_generation s.generation) (begin_connect s)

  -- `Connect`
  unfoldable pub connect_request : Proc (Sys W N I) Reply
  connect_request s = connect_admitted s.transition s
