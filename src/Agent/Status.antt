-- ===== src/Agent/Status.antt =====
-- internal/agent/controller.go: the error codes, the phases and the status values of the controller.
use overseas.Base.{ℕ, String}
use overseas.AccessModel.Model.{ConnectionState, prepared, failed_safe}

pub data ErrorCode : Type 0 where
  no_error : ErrorCode
  invalid_policy invalid_binary credential_unavailable credential_expired : ErrorCode
  prepared_state_unavailable vpn_conflict network_changed network_capture_failed : ErrorCode
  firewall_enable_failed firewall_verify_failed public_tcp_block_failed : ErrorCode
  config_render_failed core_start_failed core_not_ready tun_not_found : ErrorCode
  tun_identity_mismatch route_activation_failed readiness_lost restore_failed : ErrorCode
  automatic_restore_failed canceled : ErrorCode

pub data Phase : Type 0 where
  no_phase fingerprint_snapshot firewall core tun route_dns connected : Phase

abbrev pub connection_total_steps : ℕ
connection_total_steps = 6

pub record Status : Type 0 where
  pub state : ConnectionState
  pub error_code : ErrorCode
  pub message : String
  pub phase : Phase
  pub step : ℕ
  pub total_steps : ℕ
  pub elapsed_ms : ℕ

-- `Status{State: state, Message: message}`
abbrev pub plain_status : ConnectionState → String → Status
plain_status state message = record {
  state = state;
  error_code = no_error;
  message = message;
  phase = no_phase;
  step = 0;
  total_steps = 0;
  elapsed_ms = 0;
}

-- The map `failureMessages`; a missing key reads as "".
unfoldable pub failure_message : ErrorCode → String
failure_message no_error = ""
failure_message invalid_policy = "客户端策略无效"
failure_message invalid_binary = "客户端核心验证失败"
failure_message credential_unavailable = "访问凭据不可用"
failure_message credential_expired = "访问凭据已过期"
failure_message prepared_state_unavailable = "网络保护配置不可用"
failure_message vpn_conflict = "检测到其他 VPN/代理正在运行"
failure_message network_changed = "网络环境已变化"
failure_message network_capture_failed = "无法读取当前网络配置"
failure_message firewall_enable_failed = "无法启用防泄漏保护"
failure_message firewall_verify_failed = "防泄漏规则核对失败"
failure_message public_tcp_block_failed = "无法建立防泄漏保护"
failure_message config_render_failed = "无法生成受控配置"
failure_message core_start_failed = "无法启动访问核心"
failure_message core_not_ready = "访问服务器不可用"
failure_message tun_not_found = "TUN 网卡未出现"
failure_message tun_identity_mismatch = "TUN 网卡身份异常"
failure_message route_activation_failed = "无法启用安全路由"
failure_message readiness_lost = "安全连接已中断"
failure_message restore_failed = "无法完整恢复网络状态"
failure_message automatic_restore_failed = "自动恢复未完成，已保持应急防护"
failure_message canceled = "操作已取消"

unfoldable pub prepared_status : String → Status
prepared_status message = plain_status prepared message

unfoldable pub safe_failure : ErrorCode → Status
safe_failure code = record (plain_status prepared (failure_message code)) { error_code = code }

unfoldable pub failed_safe_status : Status
failed_safe_status = record (plain_status failed_safe (failure_message automatic_restore_failed)) {
  error_code = automatic_restore_failed;
}

-- `canceledStatus`: the answer to a caller that gave up, in the state that the controller is in.
unfoldable pub canceled_status : Status → Status
unfolding safe_failure
canceled_status current = record (safe_failure canceled) { state = current.state }

unfoldable pub tun_failure_message : ErrorCode → String
tun_failure_message tun_identity_mismatch = "TUN 网卡身份与受控定义不符"
tun_failure_message canceled = "TUN 等待已取消"
tun_failure_message _ = "TUN 网卡在截止时间内未出现"
