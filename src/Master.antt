-- ===== src/Master.antt =====
-- src/exo/master: the node that orders the events of the cluster.
pub mod EventProcessor
pub mod Placement
pub mod InstanceChoice
pub mod CommandProcessor
pub mod PlanLoop
pub mod ImageStore
mod Samples
mod PlacementSamples
