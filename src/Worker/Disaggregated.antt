-- ===== src/Worker/Disaggregated.antt =====
-- src/exo/worker/disaggregated: how the nodes of a prefill and of a decode talk to each other.
pub mod Protocol
mod Samples
