-- ===== src/Agent/Connect/Basics.antt =====
-- internal/agent/controller.go: what the steps of `runConnect` share, the codes of their errors
-- and the ways out of a step.
pub mod Safety
use overseas.Base.{
  ℕ, ◌-◌, ◌/◌, String, Bool, true, false, Option, none, some, List, not, ◌||◌, ltb, ◌==◌, str_eq,
  if◌then◌else◌,
}
use overseas.Base.Proc.{Proc, pure, gets, modify, ◌>>=◌, ◌>>◌}
use overseas.AccessModel.Model.{CredentialRef, connecting, connected}
use overseas.Agent.Status.{
  Status, ErrorCode, invalid_policy, invalid_binary, credential_unavailable, credential_expired,
  prepared_state_unavailable, vpn_conflict, network_capture_failed, firewall_enable_failed,
  firewall_verify_failed, config_render_failed, core_start_failed, core_not_ready, tun_not_found,
  tun_identity_mismatch, route_activation_failed, restore_failed, canceled, no_error, Phase,
  fingerprint_snapshot, firewall, core, tun, route_dns, connection_total_steps, safe_failure,
  tun_failure_message,
}
use overseas.Agent.Status
use overseas.Agent.Env.{
  GoError, Result, ok, err, PreparedNetwork, Credential, Started, NetworkManager, Deps, Sys,
  prepared, captured, protected, tun_ready, routed, rendered, written, readied, core_started,
}
use overseas.Agent.Tracing.{
  on_world, log_call, event_literal, emit_trace, trace_start, trace_success, trace_failure,
  trace_state_failure, new_error, diagnostic_stage,
}
use overseas.Agent.Restore.{ConnectOutcome, is_nil, error_of, restore_after_failure}

-- `preChecks`: nothing of the machine was touched yet.
unfoldable pub pre_check : {N I : Type 0} → ErrorCode → ConnectOutcome N I
pre_check code = record {
  status = safe_failure code;
  instance_handle = none;
  process_started = false;
  is_restored = false;
  snapshot = none;
  prepared = none;
}

-- `code` unless the context has ended.
abbrev pub code_unless : Option GoError → ErrorCode → ErrorCode
code_unless none code = code
code_unless (some e) code = canceled

-- The codes that the steps give to an error.
unfoldable pub prepare_code : GoError → Option GoError → ErrorCode
prepare_code e context =
    code_unless context (if e.is_vpn_conflict then vpn_conflict else prepared_state_unavailable)

unfoldable pub enable_code : GoError → Option GoError → ErrorCode
enable_code e context = code_unless context (
    if str_eq (diagnostic_stage e) "firewall_verify"
    then firewall_verify_failed
    else firewall_enable_failed)

abbrev pub enable_stage : ErrorCode → String
enable_stage firewall_verify_failed = "firewall_verify"
enable_stage _ = "firewall_enable"

unfoldable pub tun_code : GoError → Option GoError → ErrorCode
tun_code e context =
    code_unless context (if e.is_tun_mismatch then tun_identity_mismatch else tun_not_found)

module _ {W N I : Type 0} (d : Deps W N I) where
  -- `setStatusLocked(phaseStatus(phase, step, startedAt, false))`
  unfoldable pub enter_phase : Phase → ℕ → ℕ → Proc (Sys W N I) Unit
  enter_phase phase step started_at = do
    reached_at ← on_world d.now
    modify (λ s. record s {
      status = record {
        state = connecting;
        error_code = no_error;
        message = "正在建立安全连接";
        phase = phase;
        step = step;
        total_steps = connection_total_steps;
        elapsed_ms = (reached_at - started_at) / 1_000_000;
      };
    })

  -- A failed step: the trace, and then the restoration.
  unfoldable pub fail_step :
      ℕ
      → String
      → String
      → ℕ
      → String
      → GoError
      → ErrorCode
      → Option PreparedNetwork
      → Bool
      → Option I
      → Option N
      → Proc (Sys W N I) (ConnectOutcome N I)
  fail_step generation component stage traced_at message e code ready running i snapshot = do
    trace_failure d generation component stage traced_at message (some e) none
    restore_after_failure d generation code ready running i snapshot

  -- A failed check before the first step.
  unfoldable pub fail_check :
      ℕ → String → ℕ → String → GoError → ErrorCode → Proc (Sys W N I) (ConnectOutcome N I)
  fail_check generation stage traced_at message e code = do
    trace_failure d generation "controller" stage traced_at message (some e) none
    pure (pre_check code)
