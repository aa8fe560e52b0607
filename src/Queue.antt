-- ===== src/Queue.antt =====
-- app/core/queue_service.py, `QueueService`: the requests of a venue, their order, what the
-- administrator does to them, and the state that is broadcast after each change.
pub mod Rows
pub mod Order
pub mod Rotation
pub mod Stats
pub mod Broadcast
pub mod Actions
pub mod Reorder
pub mod Removal
pub mod Playing
pub mod History
