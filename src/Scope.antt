-- ===== src/Scope.antt =====
-- scope.go: the users, the clusters, and the scope of one request with its limits, its queues, the
-- choice of a host and the rewriting of the request.
pub mod Types
pub mod Nodes
pub mod Pick
pub mod Limits
pub mod Timeouts
pub mod Queue
pub mod Decorate
