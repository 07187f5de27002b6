-- ===== src/Io.antt =====
-- src/io: the operations that io_uring completes.
pub mod Buffers
pub mod Completion
pub mod CompletionQueue
pub mod Context
pub mod ControlMessage
pub mod Fs
pub mod Future
pub mod Recovery
pub mod TlsAlert
pub mod TrafficClass
