-- ===== src/LinkList.antt =====
-- linklist/linklist.c: a doubly linked list on a heap, with a head and a last pointer.
pub mod Heap
pub mod Nodes
pub mod Reading
pub mod Faults
pub mod Stack
mod Examples
