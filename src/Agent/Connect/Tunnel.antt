-- ===== src/Agent/Connect/Tunnel.antt =====
-- internal/agent/controller.go: steps 4 to 6 of `runConnect`, the TUN adapter, the routes, and the
-- connected state.
pub mod Safety
use overseas.Base.{
  ℕ, ◌-◌, ◌/◌, String, Bool, true, false, Option, none, some, List, not, ◌||◌, ltb, ◌==◌, str_eq,
  if◌then◌else◌,
}
use overseas.Base.Proc.{Proc, pure, gets, modify, ◌>>=◌, ◌>>◌}
use overseas.AccessModel.Model.{CredentialRef, connecting, connected}
use overseas.Agent.Status.{
  Status, ErrorCode, invalid_policy, invalid_binary, credential_unavailable, credential_expired,
  prepared_state_unavailable, vpn_conflict, network_capture_failed, firewall_enable_failed,
  firewall_verify_failed, config_render_failed, core_start_failed, core_not_ready, tun_not_found,
  tun_identity_mismatch, route_activation_failed, restore_failed, canceled, no_error, Phase,
  fingerprint_snapshot, firewall, core, tun, route_dns, connection_total_steps, safe_failure,
  tun_failure_message,
}
use overseas.Agent.Status
use overseas.Agent.Env.{
  GoError, Result, ok, err, PreparedNetwork, Credential, Started, NetworkManager, Deps, Sys,
  prepared, captured, protected, tun_ready, routed, rendered, written, readied, core_started,
}
use overseas.Agent.Tracing.{
  on_world, log_call, event_literal, emit_trace, trace_start, trace_success, trace_failure,
  trace_state_failure, new_error, diagnostic_stage,
}
use overseas.Agent.Restore.{ConnectOutcome, is_nil, error_of, restore_after_failure}
use overseas.Agent.Connect.Basics.{
  pre_check, code_unless, prepare_code, enable_code, enable_stage, tun_code, enter_phase, fail_step,
  fail_check,
}

module _ {W N I : Type 0} (d : Deps W N I) (generation started_at : ℕ) where
  -- Step 6
  unfoldable pub conclude_connected :
      PreparedNetwork → N → I → Proc (Sys W N I) (ConnectOutcome N I)
  conclude_connected ready snapshot i = do
    finished_at ← on_world d.now
    emit_trace d (event_literal d generation "info" "controller" "connected" "state" "海外访问已连接")
    pure (record {
      status = record {
        state = connected;
        error_code = no_error;
        message = "海外访问已连接";
        phase = Phase.connected;
        step = connection_total_steps;
        total_steps = connection_total_steps;
        elapsed_ms = (finished_at - started_at) / 1_000_000;
      };
      instance_handle = some i;
      process_started = true;
      is_restored = false;
      snapshot = some snapshot;
      prepared = some ready;
    })

  -- Step 5
  unfoldable pub judge_routes :
      PreparedNetwork → N → I → ℕ → Option GoError → Proc (Sys W N I) (ConnectOutcome N I)
  judge_routes ready snapshot i traced_at (some e) = do
    context ← on_world d.context_error
    fail_step d generation "network" "route_activation" traced_at "安全路由启用失败" e
        (code_unless context route_activation_failed) (some ready) true (some i) (some snapshot)
  judge_routes ready snapshot i traced_at none = do
    trace_success d generation "network" "route_activation" traced_at "安全路由已启用" "" none
    conclude_connected ready snapshot i

  unfoldable pub activate_routes :
      NetworkManager W N → PreparedNetwork → N → I → Proc (Sys W N I) (ConnectOutcome N I)
  activate_routes n ready snapshot i = do
    enter_phase d route_dns 5 started_at
    traced_at ← trace_start d generation "network" "route_activation" "正在切换 DNS 与安全路由"
    e ← on_world n.activate_tun_routes
    log_call (routed (is_nil e))
    judge_routes ready snapshot i traced_at e

  -- Step 4
  unfoldable pub judge_tun :
      NetworkManager W N
      → PreparedNetwork
      → N
      → I
      → ℕ
      → Option GoError
      → Proc (Sys W N I) (ConnectOutcome N I)
  judge_tun n ready snapshot i traced_at (some e) = do
    context ← on_world d.context_error
    fail_step d generation "network" "tun_ready" traced_at
        (tun_failure_message (tun_code e context)) e (tun_code e context) (some ready) true (some i)
        (some snapshot)
  judge_tun n ready snapshot i traced_at none = do
    trace_success d generation "network" "tun_ready" traced_at "TUN 网卡已就绪" "" none
    activate_routes n ready snapshot i

  unfoldable pub wait_tun :
      NetworkManager W N → PreparedNetwork → N → I → Proc (Sys W N I) (ConnectOutcome N I)
  wait_tun n ready snapshot i = do
    enter_phase d tun 4 started_at
    traced_at ← trace_start d generation "network" "tun_ready" "正在等待 sing-box TUN 网卡"
    e ← on_world n.wait_tun_ready
    log_call (tun_ready (is_nil e))
    judge_tun n ready snapshot i traced_at e
