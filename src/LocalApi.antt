-- ===== src/LocalApi.antt =====
-- internal/localapi: what the local service tells its clients.
pub mod Projection
pub mod Dispatch
pub mod Protocol
mod Tests
