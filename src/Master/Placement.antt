-- ===== src/Master/Placement.antt =====
-- src/exo/master/placement.py and placement_utils.py: which nodes run an instance, and what of it.
pub mod Allocation
pub mod Shards
pub mod Hosts
pub mod Cycles
pub mod Choice
pub mod Transitions
