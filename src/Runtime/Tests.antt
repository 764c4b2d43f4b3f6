-- ===== src/Runtime/Tests.antt =====
-- Concrete inputs for the runtime's theorems.
mod Slabs
mod Reactors
mod Tasks
mod Buffers
mod Options
mod Texts
