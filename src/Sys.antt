-- ===== src/Sys.antt =====
-- rust/sys: the wire format as the binding sees it, its submission entries and its buffer pool.
pub mod Abi
pub mod Pool
mod Tests
