-- ===== src/Runtime.antt =====
-- rust/runtime: the binding's op slab, its reactor and its executor, the buffers of streams and
-- texts, and the command line.
pub mod Cookie
pub mod Slab
pub mod Op
pub mod Reactor
pub mod Exec
pub mod Utf8
pub mod Text
pub mod Args
pub mod Opt
pub mod TextBuf
pub mod FileBuf
mod Tests
