-- ===== src/Tests.antt =====
-- Tests of the definitions on concrete states, and the theorems applied to such states.
mod Directories
mod Queues
mod Devices
mod Memory
mod Kernel
mod System
mod Boot
