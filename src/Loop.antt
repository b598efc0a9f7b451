-- ===== src/Loop.antt =====
-- The loop of a workflow, src/loop/.
pub mod Data
pub mod Rounds
pub mod Run
pub mod Protocol
pub mod Laws
pub mod Reference
pub mod Refinement
mod Examples
