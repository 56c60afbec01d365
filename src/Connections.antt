-- ===== src/Connections.antt =====
-- linklist/testlink.c: connections in a doubly linked list by rising CID, with a current node.
pub mod Nodes
pub mod Removal
pub mod Order
pub mod Focus
mod Examples
