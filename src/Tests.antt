-- ===== src/Tests.antt =====
-- Concrete clusters, users and requests, the tests, and each theorem at an input that meets its
-- hypotheses.
mod Fixtures
mod Topology
mod Pick
mod Limits
mod Queue
mod Requests
mod Cache
mod Setup
mod Retry
mod Serve
mod Files
mod Config
mod Redis
mod Server
