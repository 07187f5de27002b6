-- ===== src/Events.antt =====
-- src/events: the events of a worker's sources, and the queues that carry them to its tasks.
pub mod Channel
pub mod Queue
pub mod Registry
