-- ===== src/Workflow.antt =====
-- The workflow engine, src/workflow/: the cloning of JSON values.
pub mod Json
