-- ===== src/PageTable.antt =====
-- page-table: the verified page table.
pub mod Arch
pub mod Contents
pub mod Directory
pub mod HlSpec
pub mod Hardware
pub mod Entry
pub mod Memory
