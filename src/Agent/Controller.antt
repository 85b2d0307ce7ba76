-- ===== src/Agent/Controller.antt =====
-- internal/agent/controller.go: the operations of the controller. Each takes the transition slot, so
-- an operation runs whole between two states whose slot is free; `Reply` says when it has to wait.
mod Blocks
pub mod Validity
pub mod Connect
pub mod Disconnect
pub use Blocks.{Reply, reply, waiting}
unfoldable pub use Blocks.{
  next_generation, wait_for_transition, begin_connect, publish_connect, begin_disconnect,
  publish_disconnect, begin_restore, publish_restore, monitor_failure_code, update_line_quality,
}
unfoldable pub use Connect.{connect_request}
unfoldable pub use Disconnect.{
  run_disconnect, disconnect_request, automatic_restore, monitor_lifecycle,
}
pub use Disconnect.{MonitorEvent, core_exited, protection_failed, context_done}
