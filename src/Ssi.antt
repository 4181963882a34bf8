-- ===== src/Ssi.antt =====
-- SSI/: the system service interface.
pub mod Create
pub mod Terminate
pub mod Settled
pub mod Counted
pub mod Sound
pub mod Tree
pub mod Manager
pub mod Io
pub mod Request
pub mod Serve
