-- ===== src/Queue.antt =====
-- hermes_agent_a2a/task_queue.py: the queue of inbound tasks, and its state machine.
pub mod State
pub mod Evict
pub mod Ops
pub mod Reads
pub mod Waiters
pub mod Branches
pub mod WellFormed
pub mod Steps
pub mod Delivery
pub mod Machine
pub mod Status
pub mod Arrival
pub mod Drain
pub mod Oldest
pub mod Watchdog
