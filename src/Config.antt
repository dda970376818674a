-- ===== src/Config.antt =====
-- internal/config: the environment's values, the maintenance window and each binary's configuration.
pub mod Bytes
pub mod Window
pub mod Loader
pub mod Records
pub mod Sections
pub mod Load
pub mod Rails
pub mod Examples
