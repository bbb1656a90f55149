-- ===== src/Runtime.antt =====
-- libs/tqtk-common/src/tqtk_common/server.py: what `/ready` reports, the routing of a request, and
-- the life of the server. Each method that takes the lock is one step here.
pub mod Readiness
pub mod Handler
pub mod Lifecycle
