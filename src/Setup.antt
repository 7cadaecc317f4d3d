-- ===== src/Setup.antt =====
-- How a configuration becomes the users, clusters and caches of the proxy, and how a request finds
-- its own: the constructors of scope.go, and `applyConfig`, `getUser` and `getScope` of proxy.go.
pub mod Types
pub mod Build
pub mod Apply
pub mod Find
