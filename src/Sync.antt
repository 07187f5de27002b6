-- ===== src/Sync.antt =====
-- src/sync: the asynchronous semaphore, mutex and readers-writer lock.
pub mod Semaphore
pub mod Mutex
pub mod RwLock
