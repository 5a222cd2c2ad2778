-- ===== src/Cluster.antt =====
-- What the cluster agrees about (internal/cluster): the state machine that the log drives.
pub mod Members
pub mod Sorting
pub mod State
pub mod Addresses
pub mod Fsm
pub mod View
pub mod Consensus
mod Tests
