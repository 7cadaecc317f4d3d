-- ===== src/Proxy.antt =====
-- proxy.go: proxying a request, with retries, and serving it from the cache.
pub mod Writers
pub mod Headers
pub mod Retry
pub mod Forward
pub mod Serve
pub mod Handler
pub mod Transaction
