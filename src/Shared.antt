-- ===== src/Shared.antt =====
-- src/exo/shared: the replicated state and the application of events to it.
pub mod Interface
pub mod SampleNet
pub mod Apply
mod Samples
