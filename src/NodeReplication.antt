-- ===== src/NodeReplication.antt =====
-- verified-node-replication/verified-node-replication/src: the node replication library.
pub mod FlatCombiner
pub mod RwLock
pub mod Dispatch
pub mod SimpleLog
pub mod CyclicBuffer
pub mod UnboundedLog
