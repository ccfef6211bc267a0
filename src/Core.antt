-- ===== src/Core.antt =====
-- fs-core/src/lib.rs: the dispatcher, which checks a request, calls the service, and says in the
-- response what the caches have to forget.
pub mod Service
pub mod Handling
pub mod Invalidating
pub mod Dispatcher
pub mod Example
mod Tests
