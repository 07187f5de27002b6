-- ===== src/Examples.antt =====
-- Runs of the models on concrete inputs.
pub mod Addresses
pub mod Buffers
pub mod Loops
pub mod Locks
pub mod Failures
pub mod Futures
pub mod Messages
pub mod Numbers
pub mod Rings
pub mod Waits
pub mod Work
pub mod Workers
