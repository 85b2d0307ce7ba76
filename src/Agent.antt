-- ===== src/Agent.antt =====
-- internal/agent: the lifecycle of a connection.
pub mod Status
pub mod Readers
pub mod Env
pub mod Tracing
pub mod Restore
pub mod Connect
pub mod Controller
pub mod Safety
pub mod Lifecycle
mod Tests
