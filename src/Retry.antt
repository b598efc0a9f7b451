-- ===== src/Retry.antt =====
-- agents/: the retry orchestrator, with the attempt classifier and the delays that it uses.
pub mod Classifier
pub mod Delay
pub mod State
pub mod Parts
pub mod Pass
pub mod Finish
pub mod Loop
pub mod Attempts
pub mod Verdict
pub mod Results
pub mod Progress
pub mod Outcomes
pub mod Interruption
mod Policies
mod Examples
