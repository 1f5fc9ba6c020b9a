-- ===== src/Routing.antt =====
-- src/exo/routing: how events get from a node to the master and back.
pub mod EventRouter
mod Samples
