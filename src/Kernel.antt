-- ===== src/Kernel.antt =====
-- kernel/: the module's ring context, part by part.
pub mod Abi
pub mod Ring
pub mod Setup
pub mod Handles
pub mod Submit
pub mod Ctx
pub mod Enter
pub mod Arena
pub mod Poll
pub mod Path
pub mod Host
pub mod Files
pub mod Taken
pub mod Cancel
pub mod Defer
pub mod Store
pub mod Open
pub mod PathOps
pub mod Ops
pub mod Checksum
pub mod Readdir
pub mod Work
pub mod Submission
mod Tests
