-- ===== src/Paging.antt =====
-- Paging with five levels of directories, in the configuration of include/os-cfg.h (`MM64`):
-- addresses and their indices (Addr), page-table entries (Pte), the directories and the walk
-- through them (Table), and ranges of pages (Range).
pub mod Addr
pub mod Pte
pub mod Table
pub mod Range
