-- ===== src/Config.antt =====
-- internal/config: the configuration, its defaults, its validation, and the loader.
pub mod Types
pub mod Addresses
pub mod Constants
pub mod Defaults
pub mod Issue
pub mod Validator
pub mod Loader
