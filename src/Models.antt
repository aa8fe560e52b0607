-- ===== src/Models.antt =====
-- app/models/__init__.py, the events that leave the process, and the session of a request.
pub mod Tables
pub mod Events
pub mod Session
