-- ===== src/Shim.antt =====
-- The shim (shim/): the process that stands for the workload on the host. Each child is one part of
-- shim/shim.c and shim/utils.c; Kernel is what the system calls do to the bytes that pass.
pub mod Kernel
pub mod Endian
pub mod State
pub mod Control
pub mod Stream
pub mod Reading
pub mod Rounds
pub mod Reassembly
pub mod Delivery
pub mod Session
pub mod Loop
pub mod Exit
pub mod Options
pub mod Termination
