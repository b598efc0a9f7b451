-- ===== src/Config.antt =====
-- The configuration, config/: the resolution of the retry policy and of the provider aliases.
pub mod Aliases
pub mod Policies
pub mod Retry
