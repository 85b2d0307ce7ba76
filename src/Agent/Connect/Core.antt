-- ===== src/Agent/Connect/Core.antt =====
-- internal/agent/controller.go: step 3 of `runConnect`, the configuration and the core process.
pub mod Safety
use overseas.Base.{
  ℕ, ◌-◌, ◌/◌, String, Bool, true, false, Option, none, some, List, not, ◌||◌, ltb, ◌==◌, str_eq,
  if◌then◌else◌,
}
use overseas.Base.Proc.{Proc, pure, gets, modify, ◌>>=◌, ◌>>◌}
use overseas.AccessModel.Model.{Policy, CredentialRef, connecting, connected}
use overseas.Agent.Status.{
  Status, ErrorCode, invalid_policy, invalid_binary, credential_unavailable, credential_expired,
  prepared_state_unavailable, vpn_conflict, network_capture_failed, firewall_enable_failed,
  firewall_verify_failed, config_render_failed, core_start_failed, core_not_ready, tun_not_found,
  tun_identity_mismatch, route_activation_failed, restore_failed, canceled, no_error, Phase,
  fingerprint_snapshot, firewall, core, tun, route_dns, connection_total_steps, safe_failure,
  tun_failure_message,
}
use overseas.Agent.Status
use overseas.Agent.Env.{
  GoError, Result, ok, err, PreparedNetwork, Credential, Started, NetworkManager, Deps, Sys,
  prepared, captured, protected, tun_ready, routed, rendered, written, readied, core_started,
}
use overseas.Agent.Tracing.{
  on_world, log_call, event_literal, emit_trace, trace_start, trace_success, trace_failure,
  trace_state_failure, new_error, diagnostic_stage,
}
use overseas.Agent.Restore.{ConnectOutcome, is_nil, error_of, restore_after_failure}
use overseas.Agent.Connect.Basics.{
  pre_check, code_unless, prepare_code, enable_code, enable_stage, tun_code, enter_phase, fail_step,
  fail_check,
}
use overseas.Agent.Connect.Tunnel.{wait_tun}

module _ {W N I : Type 0} (d : Deps W N I) (generation started_at : ℕ) where
  unfoldable pub judge_ready :
      NetworkManager W N
      → PreparedNetwork
      → N
      → I
      → ℕ
      → Option GoError
      → Proc (Sys W N I) (ConnectOutcome N I)
  judge_ready n ready snapshot i traced_at (some e) = do
    context ← on_world d.context_error
    fail_step d generation "core" "core_ready" traced_at "访问核心未就绪" e
        (code_unless context core_not_ready) (some ready) true (some i) (some snapshot)
  judge_ready n ready snapshot i traced_at none = do
    trace_success d generation "core" "core_ready" traced_at "访问核心已就绪" "" none
    wait_tun d generation started_at n ready snapshot i

  unfoldable pub await_ready :
      NetworkManager W N → PreparedNetwork → N → ℕ → I → Proc (Sys W N I) (ConnectOutcome N I)
  await_ready n ready snapshot traced_at i = do
    trace_success d generation "core" "core_start" traced_at "访问核心已启动" "" none
    ready_at ← trace_start d generation "core" "core_ready" "等待访问核心就绪"
    e ← on_world (d.ready i)
    log_call (readied (is_nil e))
    judge_ready n ready snapshot i ready_at e

  -- What `Start` returned: an error, no instance, or an instance.
  unfoldable pub judge_start :
      NetworkManager W N
      → PreparedNetwork
      → N
      → ℕ
      → Bool
      → Option I
      → Option GoError
      → Proc (Sys W N I) (ConnectOutcome N I)
  judge_start n ready snapshot traced_at proven i (some e) = do
    context ← on_world d.context_error
    fail_step d generation "core" "core_start" traced_at "访问核心启动失败" e
        (code_unless context core_start_failed) (some ready) (not proven) i (some snapshot)
  judge_start n ready snapshot traced_at proven none none =
      fail_step d generation "core" "core_start" traced_at "访问核心启动失败"
        (new_error "process supervisor returned no instance") core_start_failed (some ready) false
        none (some snapshot)
  judge_start n ready snapshot traced_at proven (some i) none =
      await_ready n ready snapshot traced_at i

  unfoldable pub start_with :
      NetworkManager W N
      → PreparedNetwork
      → N
      → ℕ
      → Option (String → String → W → Started I × W)
      → Proc (Sys W N I) (ConnectOutcome N I)
  start_with n ready snapshot traced_at none =
      fail_step d generation "core" "core_start" traced_at "访问核心启动失败"
        (new_error "process supervisor is unavailable") core_start_failed (some ready) false none
        (some snapshot)
  start_with n ready snapshot traced_at (some start) = do
    started ← on_world (start d.executable_path d.config_path)
    log_call (core_started (is_nil started.error) started.termination_proven)
    judge_start n ready snapshot traced_at started.termination_proven started.instance_handle
        started.error

  unfoldable pub start_core :
      NetworkManager W N → PreparedNetwork → N → ℕ → Proc (Sys W N I) (ConnectOutcome N I)
  start_core n ready snapshot rendered_at = do
    trace_success d generation "controller" "config_render" rendered_at "受控核心配置已生成" "" none
    traced_at ← trace_start d generation "core" "core_start" "启动访问核心"
    start_with n ready snapshot traced_at d.start_process

  -- A failure to render or to write the configuration.
  unfoldable pub fail_render :
      PreparedNetwork → N → ℕ → String → GoError → Proc (Sys W N I) (ConnectOutcome N I)
  fail_render ready snapshot traced_at message e =
      fail_step d generation "controller" "config_render" traced_at message e config_render_failed
        (some ready) false none (some snapshot)

  unfoldable pub judge_write :
      NetworkManager W N
      → PreparedNetwork
      → N
      → ℕ
      → Option GoError
      → Proc (Sys W N I) (ConnectOutcome N I)
  judge_write n ready snapshot traced_at (some e) =
      fail_render ready snapshot traced_at "受控核心配置写入失败" e
  judge_write n ready snapshot traced_at none = start_core n ready snapshot traced_at

  unfoldable pub judge_render :
      NetworkManager W N
      → PreparedNetwork
      → N
      → ℕ
      → (String → List ℕ → W → Option GoError × W)
      → Result (List ℕ)
      → Proc (Sys W N I) (ConnectOutcome N I)
  judge_render n ready snapshot traced_at write (err e) =
      fail_render ready snapshot traced_at "受控核心配置生成失败" e
  judge_render n ready snapshot traced_at write (ok config) = do
    e ← on_world (write d.config_path config)
    log_call (written (is_nil e))
    judge_write n ready snapshot traced_at e

  unfoldable pub render_with :
      NetworkManager W N
      → PreparedNetwork
      → N
      → ℕ
      → Credential
      → Option (Policy → Credential → W → Result (List ℕ) × W)
      → Option (String → List ℕ → W → Option GoError × W)
      → Proc (Sys W N I) (ConnectOutcome N I)
  render_with n ready snapshot traced_at credential (some render) (some write) =
      if str_eq d.config_path ""
      then fail_render ready snapshot traced_at "受控核心配置生成失败"
          (new_error "configuration renderer or destination is unavailable")
      else do
        config ← on_world (render d.policy credential)
        log_call (rendered (is_nil (error_of config)))
        judge_render n ready snapshot traced_at write config
  render_with n ready snapshot traced_at credential _ _ =
      fail_render ready snapshot traced_at "受控核心配置生成失败"
        (new_error "configuration renderer or destination is unavailable")

  -- Step 3
  unfoldable pub run_core :
      NetworkManager W N → PreparedNetwork → N → Credential → Proc (Sys W N I) (ConnectOutcome N I)
  run_core n ready snapshot credential = do
    enter_phase d core 3 started_at
    traced_at ← trace_start d generation "controller" "config_render" "生成受控核心配置"
    render_with n ready snapshot traced_at credential d.render_config d.write_config
