-- ===== src/Lib.antt =====
-- The live services of a karaoke platform: a backend over one PostgreSQL database (app/), through
-- which singers send requests, an administrator runs the queue of a venue, and the KJ desktop
-- plays from its own rotation. What is modelled here:
--
--   * Queue (app/core/queue_service.py, QueueService): the requests of a venue. Queue.Rows holds
--     the conditions, orders and writes of the queries; Queue.Order get_active_queue with its four
--     modes; Queue.Rotation the view that is shown, with the estimated waits; Queue.Stats
--     compute_queue_stats; Queue.Broadcast broadcast_queue_state, _dedupe_now_playing,
--     _maybe_notify_position_change and _auto_advance; Queue.Actions approve, reject, start,
--     complete, skip, cancel and update; Queue.Reorder reorder, reorder_by_singer and skip_to_end;
--     Queue.Removal remove_singer_from_rotation; Queue.History the calls in sequence.
--   * Host (app/core/host_rotation_service.py, HostRotationService): the live rotation of the KJ
--     desktop. Host.Rows the queries; Host.Broadcast broadcast_queue_state and _auto_advance;
--     Host.Snapshot upsert_snapshot; Host.Playing set_now_playing; Host.Actions the operations on
--     single items; Host.History the calls in sequence.
--   * Points (app/core/points_service.py) and Notify (app/core/notification_service.py): add_points
--     and notify_singer, which the queue calls, and in Points.Achievements the achievements.
--   * Licensing (app/services/license_service.py, LicenseService) and Billing
--     (app/services/billing_lifecycle.py): what a desktop client and a venue may use, and when.
--   * Repair (app/services/repair_sync.py): the full repair sync of a KJ desktop. Repair has its
--     data and resolutions, Repair.Detect the conflicts, Repair.Singers, Repair.Requests and
--     Repair.Apply what applies a snapshot, Repair.Jobs the store of jobs with start, resolve and
--     cancel, Repair.Progress the calls in sequence.
--   * Merge (app/services/singer_merge.py): a local singer merged into a mobile one, Merge.Rows the
--     rows that move.
--   * Sync (app/routers/kj_sync.py): what the KJ desktop pushes of singers and settings, and
--     what it acknowledges and removes. Loyalty (app/core/loyalty_service.py): awards and tiers.
--   * Middleware (app/middleware/security.py): the rate limit. Bus (app/core/queue_service.py,
--     InMemoryEventBus): the fan-out of events in one process.
--   * Permissions (app/core/permissions.py): who may act as whom.
--
-- Models.Tables has the rows (app/models/__init__.py), Models.Events what is published and pushed,
-- and Models.Session the state of a request. That is a session with the tables that it sees (`db`)
-- and those that are durable (`committed`): a commit copies the first to the second, a failed flush
-- the second to the first, and get_db (app/core/db.py) ends a request without a commit of its own.
-- An operation is an `Action`, a function of the session to a result or a `Failure`; what was
-- written before an exception stays in the session. The services publish an event after they
-- commit, and the failures of its transports are swallowed. Most of the queue's operations end with a
-- broadcast, which may write (it demotes duplicates) and may raise. Queue and Host read each
-- other's tables nowhere; they share singer_removals and is_kj_online. Repair also adds rows
-- that no query sees before a flush (Models.Session.Flush). Licensing and Billing keep their rows and
-- no session, since each of their writes is committed in the call that makes it, or
-- by the caller.
--
-- Representation. A key (a UUID text), a hash or a token is a number, since it is only compared. A
-- timestamp text YYYY-MM-DDTHH:MM:SSZ is the number of its fourteen digits, which orders as the
-- text does; Billing and the expiry of a licence count seconds. A NULL is `none`. ORDER BY,
-- `sorted` and `list.sort` are one stable sort, with PostgreSQL's place for NULL: last ascending,
-- first descending. The isoformat text of a merge is a number of its own. Rows that a query does not order come in the order of the table. A dict of
-- lists is an association list in the order of first use. Clock is one reading of the time for an
-- operation, with the times a number of seconds before it.
--
-- Parameters are what is not in this repository: the clock's subtraction of seconds, uuid4 (a key
-- that no row has), SHA-256, the JWT library, datetime.fromisoformat with
-- strftime, `str.strip` and ILIKE.
--
-- Constraints. Models.Session.Flush checks the primary keys, the unique constraints and indexes and
-- the foreign keys of what it writes; Host.Snapshot the primary key and the check on the status;
-- Merge.Rows the unique constraints of the tables that a merge updates; Queue.Actions the foreign key
-- that a request without a singer breaks. Elsewhere an operation is given ids of rows that exist.
--
-- Fuel: the passes of the round robin (Queue.Order, `rounds`) are bounded by the number of the
-- items and the iterators together, since every pass takes an item or drops an iterator; the
-- theorem of Queue.Order.Fairness on the round robin shows that they are enough. The loop that looks
-- for a free stage name (Repair.Names, `free_name`) has as many passes as there are singers,
-- since a singer takes one name at most. Everything else is structural recursion.
--
-- Not modelled: the transports of an event (gateway, Redis), Firebase and Celery, get_analytics and
-- the leaderboards, the progress of quests, and the other routers, of which the queue push and the
-- history of the KJ desktop hold rules of their own; get_db's row-level security; the fields of an answer that repeat the row it is about;
-- payments, authentication and configuration.
pub mod Prelude
pub mod Models
pub mod Notify
pub mod Points
pub mod Queue
pub mod Host
pub mod Bus
pub mod Middleware
pub mod Merge
pub mod Repair
pub mod Sync
pub mod Loyalty
pub mod Licensing
pub mod Billing
pub mod Permissions
mod Tests
