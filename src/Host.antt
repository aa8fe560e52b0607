-- ===== src/Host.antt =====
-- The live rotation that the KJ desktop plays from (app/core/host_rotation_service.py).
pub mod Rows
pub mod Broadcast
pub mod Snapshot
pub mod Playing
pub mod Actions
pub mod Sound
pub mod History
