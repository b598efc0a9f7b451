-- ===== src/Context.antt =====
-- The workflow context: src/context/.
pub mod Json
pub mod Operations
pub mod Path
pub mod Runtime
