-- ===== src/Agent/Connect/Capture.antt =====
-- internal/agent/controller.go: steps 1 and 2 of `runConnect`, the prepared network, its snapshot
-- and the leak protection.
pub mod Safety
use overseas.Base.{
  ℕ, ◌-◌, ◌/◌, String, Bool, true, false, Option, none, some, List, not, ◌||◌, ltb, ◌==◌, str_eq,
  if◌then◌else◌,
}
use overseas.Base.Proc.{Proc, pure, gets, modify, ◌>>=◌, ◌>>◌}
use overseas.AccessModel.Model.{Policy, CredentialRef, connecting, connected}
use overseas.Agent.Status.{
  Status, ErrorCode, invalid_policy, invalid_binary, credential_unavailable, credential_expired,
  prepared_state_unavailable, vpn_conflict, network_capture_failed, firewall_enable_failed,
  firewall_verify_failed, config_render_failed, core_start_failed, core_not_ready, tun_not_found,
  tun_identity_mismatch, route_activation_failed, restore_failed, canceled, no_error, Phase,
  fingerprint_snapshot, firewall, core, tun, route_dns, connection_total_steps, safe_failure,
  tun_failure_message,
}
use overseas.Agent.Status
use overseas.Agent.Env.{
  GoError, Result, ok, err, PreparedNetwork, Credential, Started, NetworkManager, Deps, Sys,
  prepared, captured, protected, tun_ready, routed, rendered, written, readied, core_started,
}
use overseas.Agent.Tracing.{
  on_world, log_call, event_literal, emit_trace, trace_start, trace_success, trace_failure,
  trace_state_failure, new_error, diagnostic_stage,
}
use overseas.Agent.Restore.{ConnectOutcome, is_nil, error_of, restore_after_failure}
use overseas.Agent.Connect.Basics.{
  pre_check, code_unless, prepare_code, enable_code, enable_stage, tun_code, enter_phase, fail_step,
  fail_check,
}
use overseas.Agent.Connect.Core.{run_core}

module _ {W N I : Type 0} (d : Deps W N I) (generation started_at : ℕ)
    (credential : Credential) where
  -- Step 2
  unfoldable pub judge_protection :
      NetworkManager W N
      → PreparedNetwork
      → N
      → ℕ
      → Option GoError
      → Proc (Sys W N I) (ConnectOutcome N I)
  judge_protection n ready snapshot traced_at (some e) = do
    context ← on_world d.context_error
    let code = enable_code e context
    fail_step d generation "network" (enable_stage code) traced_at "防泄漏保护启用失败" e code (some ready)
        false none (some snapshot)
  judge_protection n ready snapshot traced_at none = do
    trace_success d generation "network" "firewall_enable" traced_at "防泄漏保护已启用"
        (d.format_rules ready) none
    run_core d generation started_at n ready snapshot credential

  unfoldable pub enable_protection :
      NetworkManager W N → PreparedNetwork → N → Proc (Sys W N I) (ConnectOutcome N I)
  enable_protection n ready snapshot = do
    enter_phase d firewall 2 started_at
    traced_at ← trace_start d generation "network" "firewall_enable" "正在启用防泄漏保护"
    e ← on_world (n.enable_protection ready)
    log_call (protected (is_nil e))
    judge_protection n ready snapshot traced_at e

  unfoldable pub judge_capture :
      NetworkManager W N → PreparedNetwork → ℕ → Result N → Proc (Sys W N I) (ConnectOutcome N I)
  judge_capture n ready traced_at (err e) = do
    context ← on_world d.context_error
    fail_step d generation "network" "network_capture" traced_at "无法读取当前网络配置" e
        (code_unless context network_capture_failed) none false none none
  judge_capture n ready traced_at (ok snapshot) = do
    modify (λ s. record s { snapshot = some snapshot })
    trace_success d generation "network" "network_capture" traced_at "当前网络配置已确认" "" none
    enable_protection n ready snapshot

  unfoldable pub judge_prepare :
      NetworkManager W N → ℕ → Result PreparedNetwork → Proc (Sys W N I) (ConnectOutcome N I)
  judge_prepare n traced_at (err e) = do
    context ← on_world d.context_error
    fail_step d generation "network" "network_prepare" traced_at "网络保护配置不可用" e
        (prepare_code e context) none false none none
  judge_prepare n traced_at (ok ready) = do
    trace_success d generation "network" "network_prepare" traced_at "网络保护配置已就绪"
        (d.format_prepared ready) none
    capture_at ← trace_start d generation "network" "network_capture" "正在读取当前网络配置"
    snapshot ← on_world (n.capture ready)
    log_call (captured (is_nil (error_of snapshot)))
    judge_capture n ready capture_at snapshot

  unfoldable pub prepare_with :
      ℕ → Option (NetworkManager W N) → Proc (Sys W N I) (ConnectOutcome N I)
  prepare_with traced_at none = do
    trace_failure d generation "network" "network_prepare" traced_at "网络保护配置不可用"
        (some (new_error "network manager is unavailable")) none
    pure (pre_check prepared_state_unavailable)
  prepare_with traced_at (some n) = do
    ready ← on_world n.prepare
    log_call (prepared (is_nil (error_of ready)))
    judge_prepare n traced_at ready

  -- Step 1. `setStatusLocked` never fails, so its error branch is not there.
  unfoldable pub run_network : Proc (Sys W N I) (ConnectOutcome N I)
  run_network = do
    enter_phase d fingerprint_snapshot 1 started_at
    traced_at ← trace_start d generation "network" "network_prepare" "正在读取当前网络配置与网卡清单"
    prepare_with traced_at d.network
