-- ===== src/Agent/Readers.antt =====
-- internal/agent/controller.go: the readers of the controller's state, each under its mutex.
use overseas.Base.{ℕ, String}
use overseas.AccessModel.Model.{ConnectionState}
use overseas.Agent.Status.{
  Status, ErrorCode, no_error, invalid_policy, invalid_binary, credential_unavailable,
  credential_expired, prepared_state_unavailable, vpn_conflict, network_changed,
  network_capture_failed, firewall_enable_failed, firewall_verify_failed, public_tcp_block_failed,
  config_render_failed, core_start_failed, core_not_ready, tun_not_found, tun_identity_mismatch,
  route_activation_failed, readiness_lost, restore_failed, automatic_restore_failed, canceled,
}
use overseas.Agent.Env.{Sys, LineQuality}

-- The `Error…` constants.
unfoldable pub error_text : ErrorCode → String
error_text no_error = ""
error_text invalid_policy = "invalid_policy"
error_text invalid_binary = "invalid_binary"
error_text credential_unavailable = "credential_unavailable"
error_text credential_expired = "credential_expired"
error_text prepared_state_unavailable = "prepared_state_unavailable"
error_text vpn_conflict = "vpn_conflict"
error_text network_changed = "network_changed"
error_text network_capture_failed = "network_capture_failed"
error_text firewall_enable_failed = "firewall_enable_failed"
error_text firewall_verify_failed = "firewall_verify_failed"
error_text public_tcp_block_failed = "public_tcp_block_failed"
error_text config_render_failed = "config_render_failed"
error_text core_start_failed = "core_start_failed"
error_text core_not_ready = "core_not_ready"
error_text tun_not_found = "tun_not_found"
error_text tun_identity_mismatch = "tun_identity_mismatch"
error_text route_activation_failed = "route_activation_failed"
error_text readiness_lost = "readiness_lost"
error_text restore_failed = "restore_failed"
error_text automatic_restore_failed = "automatic_restore_failed"
error_text canceled = "canceled"

pub record Diagnostics : Type 0 where
  pub state : ConnectionState
  pub error_code : ErrorCode
  pub message : String
  pub generation : ℕ
  pub stage : String
  pub detail : String

pub record LocalStatusSnapshot : Type 0 where
  pub status : Status
  pub generation : ℕ
  pub quality : LineQuality
  pub connected_at : ℕ  -- 0 is Go's zero time

module _ {W N I : Type 0} where
  -- `Diagnostics`
  abbrev pub diagnostics : Sys W N I → Diagnostics
  diagnostics s = record {
    state = s.status.state;
    error_code = s.status.error_code;
    message = s.status.message;
    generation = s.generation;
    stage = s.diagnostic_stage;
    detail = s.diagnostic_detail;
  }

  -- `LocalStatusSnapshot`
  abbrev pub local_status_snapshot : Sys W N I → LocalStatusSnapshot
  local_status_snapshot s = record {
    status = s.status;
    generation = s.generation;
    quality = s.line_quality;
    connected_at = s.connected_at;
  }
