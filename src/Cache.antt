-- ===== src/Cache.antt =====
-- The response cache (the package `cache`): transactions, waiting for them, stored formats.
pub mod Registry
pub mod RedisRegistry
pub mod Await
pub mod Codec
pub mod Key
pub mod TmpFile
pub mod Store
pub mod Files
pub mod RedisStream
pub mod Redis
