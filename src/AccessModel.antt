-- ===== src/AccessModel.antt =====
-- internal/accessmodel: the policy of an installation.
pub mod Model
pub mod Validate
pub mod Accepted
pub mod Safe
mod Tests
