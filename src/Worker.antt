-- ===== src/Worker.antt =====
-- src/exo/worker: what a node does for the instances that it takes part in.
pub mod Plan
pub mod Disaggregated
mod Samples
