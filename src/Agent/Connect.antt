-- ===== src/Agent/Connect.antt =====
-- internal/agent/controller.go: `runConnect`, the six-step connection transaction. Each step is a
-- function that ends in the next one or in the restoration.
pub mod Basics
pub mod Tunnel
pub mod Core
pub mod Capture
pub mod Checks
unfoldable pub use Basics.{
  pre_check, code_unless, prepare_code, enable_code, tun_code, enter_phase, fail_step, fail_check,
}
unfoldable pub use Checks.{run_connect}
