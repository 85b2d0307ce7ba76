-- ===== src/Agent/Connect/Checks.antt =====
-- internal/agent/controller.go: `runConnect` from its start to the first step: cancellation, the
-- ownership of an earlier core, the policy, the executable and the credential.
pub mod Safety
use overseas.Base.{
  ℕ, ◌-◌, ◌/◌, String, Bool, true, false, Option, none, some, List, [], not, ◌||◌, ltb, ◌==◌,
  str_eq, if◌then◌else◌,
}
use overseas.Base.Proc.{Proc, pure, gets, modify, ◌>>=◌, ◌>>◌}
use overseas.AccessModel.Model.{Policy, CredentialRef, connecting, connected}
use overseas.Agent.Status.{
  Status, ErrorCode, invalid_policy, invalid_binary, credential_unavailable, credential_expired,
  prepared_state_unavailable, vpn_conflict, network_capture_failed, firewall_enable_failed,
  firewall_verify_failed, config_render_failed, core_start_failed, core_not_ready, tun_not_found,
  tun_identity_mismatch, route_activation_failed, restore_failed, canceled, no_error, Phase,
  fingerprint_snapshot, firewall, core, tun, route_dns, connection_total_steps, safe_failure,
  tun_failure_message,
}
use overseas.Agent.Status
use overseas.Agent.Env.{
  GoError, Result, ok, err, PreparedNetwork, Credential, Started, NetworkManager, Deps, Sys,
  prepared, captured, protected, tun_ready, routed, rendered, written, readied, core_started,
}
use overseas.Agent.Tracing.{
  on_world, log_call, event_literal, emit_trace, trace_start, trace_success, trace_failure,
  trace_state_failure, new_error, diagnostic_stage,
}
use overseas.Agent.Restore.{ConnectOutcome, is_nil, error_of, restore_after_failure}
use overseas.Agent.Connect.Basics.{
  pre_check, code_unless, prepare_code, enable_code, enable_stage, tun_code, enter_phase, fail_step,
  fail_check,
}
use overseas.Agent.Connect.Capture.{run_network}

module _ {W N I : Type 0} (d : Deps W N I) (generation started_at : ℕ) where
  unfoldable pub check_expiry : ℕ → Credential → Bool → Proc (Sys W N I) (ConnectOutcome N I)
  check_expiry traced_at credential expired =
      if expired
      then fail_check d generation "credential_load" traced_at "受保护凭据已过期"
          (new_error "credential expiry is invalid") credential_expired
      else do
        trace_success d generation "controller" "credential_load" traced_at "受保护凭据加载完成" "" none
        run_network d generation started_at credential

  -- `credential.ExpiresAt.IsZero() || !credential.ExpiresAt.After(c.deps.Now())`
  unfoldable pub judge_credential : ℕ → Result Credential → Proc (Sys W N I) (ConnectOutcome N I)
  judge_credential traced_at (err e) =
      fail_check d generation "credential_load" traced_at "受保护凭据不可用" e credential_unavailable
  judge_credential traced_at (ok credential) =
      if credential.expires_at == 0 then check_expiry traced_at credential true else do
        time ← on_world d.now
        check_expiry traced_at credential (not (ltb time credential.expires_at))

  unfoldable pub load_with :
      ℕ → Option (CredentialRef → W → Result Credential × W) → Proc (Sys W N I) (ConnectOutcome N I)
  load_with traced_at none =
      fail_check d generation "credential_load" traced_at "受保护凭据不可用"
        (new_error "credential loader is unavailable") credential_unavailable
  load_with traced_at (some load) = do
    credential ← on_world (load d.policy.credential)
    judge_credential traced_at credential

  abbrev pub no_credential : Credential
  no_credential = record { method = ""; password = []; expires_at = 0 }

  unfoldable pub load_credential : Proc (Sys W N I) (ConnectOutcome N I)
  load_credential =
      if d.policy.schema_version == 1
      then (do
        traced_at ← trace_start d generation "controller" "credential_load" "加载受保护凭据"
        load_with traced_at d.load_credential)
      else run_network d generation started_at no_credential

  unfoldable pub judge_executable : ℕ → Option GoError → Proc (Sys W N I) (ConnectOutcome N I)
  judge_executable traced_at (some e) =
      fail_check d generation "binary_verification" traced_at "客户端核心验证失败" e invalid_binary
  judge_executable traced_at none = do
    trace_success d generation "controller" "binary_verification" traced_at "客户端核心验证通过" "" none
    load_credential

  unfoldable pub verify_with :
      ℕ → Option (String → W → Option GoError × W) → Proc (Sys W N I) (ConnectOutcome N I)
  verify_with traced_at none =
      fail_check d generation "binary_verification" traced_at "客户端核心验证失败"
        (new_error "binary verifier or executable path is unavailable") invalid_binary
  verify_with traced_at (some verify) =
      if str_eq d.executable_path ""
      then fail_check d generation "binary_verification" traced_at "客户端核心验证失败"
          (new_error "binary verifier or executable path is unavailable") invalid_binary
      else do e ← on_world (verify d.executable_path); judge_executable traced_at e

  unfoldable pub judge_policy : ℕ → Option GoError → Proc (Sys W N I) (ConnectOutcome N I)
  judge_policy traced_at (some e) =
      fail_check d generation "policy_validation" traced_at "访问策略验证失败" e invalid_policy
  judge_policy traced_at none = do
    trace_success d generation "controller" "policy_validation" traced_at "访问策略验证通过" "" none
    verify_at ← trace_start d generation "controller" "binary_verification" "验证客户端核心"
    verify_with verify_at d.verify_executable

  unfoldable pub validate_policy : Proc (Sys W N I) (ConnectOutcome N I)
  validate_policy = do
    traced_at ← trace_start d generation "controller" "policy_validation" "验证访问策略"
    e ← on_world (d.validate_policy d.policy)
    judge_policy traced_at e

  -- No core is started while the end of the last one is not proven.
  unfoldable pub check_ownership : Bool → Option I → Proc (Sys W N I) (ConnectOutcome N I)
  check_ownership true previous = do
    traced_at ← trace_start d generation "core" "core_start" "检查核心进程所有权"
    fail_step d generation "core" "core_start" traced_at "无法启动新的核心进程"
        (new_error "previous core termination is not proven") restore_failed none true previous none
  check_ownership false previous = validate_policy

  unfoldable pub judge_context : Option GoError → Proc (Sys W N I) (ConnectOutcome N I)
  judge_context (some e) = do
    trace_state_failure d generation "controller" "request_received" "连接请求已取消" (some e)
    pure (pre_check canceled)
  judge_context none = do
    may_run ← gets (λ s. s.process_started)
    previous ← gets (λ s. s.process_instance)
    check_ownership may_run previous

  unfoldable pub run_connect : Proc (Sys W N I) (ConnectOutcome N I)
  run_connect = do e ← on_world d.context_error; judge_context e
