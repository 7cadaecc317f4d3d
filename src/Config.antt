-- ===== src/Config.antt =====
-- config/: what is checked and computed of a configuration file behind its decoding by the YAML
-- library.
pub mod Validate
pub mod Load
pub mod Secrets
pub mod Networks
pub mod Duration
