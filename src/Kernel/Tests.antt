-- ===== src/Kernel/Tests.antt =====
-- Concrete inputs for the kernel's theorems.
mod Rings
mod Devices
mod Tables
mod Memory
mod Operations
mod Contents
mod Calls
