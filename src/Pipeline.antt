-- ===== src/Pipeline.antt =====
-- The pipelines, pipeline/: their stages, the two strategies and the limiters of their concurrency.
pub mod Concurrency
pub mod Stages
pub mod Strategies
pub mod Run
