-- ===== src/Utils.antt =====
-- utils.go and proxy_handler.go: what is read of a request before it is proxied.
pub mod Auth
pub mod Query
pub mod Comments
pub mod Hashes
pub mod Snippet
