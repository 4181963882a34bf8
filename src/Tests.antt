-- ===== src/Tests.antt =====
-- The theorems at concrete inputs, from a memory of zeros.
mod Blank
pub mod Procs
pub mod Threads
pub mod Msgs
pub mod Kernel
mod Lists
mod Clock
mod Receive
pub mod Ssi
mod Syscalls
mod Syslib
mod Start
mod Reached
mod Turns
mod Tree
