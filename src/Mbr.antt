-- ===== src/Mbr.antt =====
-- hdmbr/mbr.c and hdmbr/main.c: what the ATA identify block says of a disk. The parts: the texts of
-- the block, and the capacity with its printed form.
pub mod Text
pub mod Capacity
pub mod Identify
pub mod Tool
mod Examples
