-- ===== src/Agent/Safety.antt =====
-- What the lifecycle of internal/agent/controller.go must keep, read off the calls that it makes.
pub mod Log
pub mod Quiet
