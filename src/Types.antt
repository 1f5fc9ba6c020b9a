-- ===== src/Types.antt =====
-- src/exo/shared/types: the data that the components exchange.
--
-- A field of the source that no operation of this library reads or writes is not listed one by one:
-- where such fields matter to the identity of a value they stand together in a field `other`, as
-- the text that they serialise to.
pub mod Common
pub mod Workers
pub mod Tasks
pub mod Nodes
pub mod Events
pub mod State
pub mod Equality
