-- ===== src/Repair/Requests.antt =====
-- The queue and the settings of a snapshot (app/services/repair_sync.py: `_apply_queue`,
-- `_apply_settings`).
use scales_infrastructure.Prelude.{
  ℕ, ◌+◌, Bool, true, false, not, ◌&&◌, Option, none, some, List, [], ◌∷◌, ◌++◌, String, ◌==◌,
  is_none, is_some, get_or, find, update_where, if◌then◌else◌,
}
use scales_infrastructure.Models.Tables.{
  Status, rejected, skipped, QueueRequest, VenueConfig, Tables,
}
use scales_infrastructure.Models.Session.{Clock, Action, pure, gets, modify, ◌>>=◌, ◌>>◌}
use scales_infrastructure.Models.Session.Flush.{flush, add}
use scales_infrastructure.Queue.Rotation.{text_or}
use scales_infrastructure.Repair.{
  SyncQueueItem, SyncSettingItem, Part, queue_entity, settings_entity, Conflict, resolution_of,
  is_server_wins, is_merge, value, server, field_winner,
}
use scales_infrastructure.Repair.Detect.{request_at, setting_at}
use scales_infrastructure.Repair.Singers.{
  Texts, with_request, is_given, ensure_singer_exists, resolve_or_create_song,
}

abbrev pub write_request : ℕ → (QueueRequest → QueueRequest) → Tables → Tables
write_request k f t = record t {
  queue_requests = update_where (λ (r : QueueRequest). r.id == k) f t.queue_requests;
}

abbrev pub given_or {ℓ} : {A : Type ℓ} → Option A → Option A → Option A
given_or none old = old
given_or (some a) old = some a

abbrev pub text_or_old : Option String → Option String → Option String
text_or_old new old = if is_given new then new else old

abbrev pub written_request : ℕ → SyncQueueItem → Option ℕ → QueueRequest → QueueRequest
written_request now item song r = record r {
  singer_id = some item.singer_id;
  song_id = get_or song r.song_id;
  status = item.status;
  source = item.source;
  rotation_position = item.position;
  notes = item.notes;
  requested_at = item.requested_at;
  updated_at = some now;
  played_at = given_or item.played_at r.played_at;
  reject_reason = text_or_old item.reject_reason r.reject_reason;
}

abbrev pub new_request : ℕ → ℕ → SyncQueueItem → ℕ → QueueRequest
new_request now v item song = record {
  id = item.request_id;
  venue_id = v;
  singer_id = some item.singer_id;
  song_id = song;
  status = item.status;
  notes = item.notes;
  reject_reason = item.reject_reason;
  source = item.source;
  rotation_position = item.position;
  requested_at = item.requested_at;
  updated_at = some now;
  played_at = item.played_at;
  deleted_at = none;
}

-- `status not in ("rejected", "skipped")`
abbrev pub keeps_song : Status → Bool
keeps_song rejected = true
keeps_song skipped = true
keeps_song _ = false

abbrev pub request_with : ℕ → ℕ → SyncQueueItem → Option ℕ → Option QueueRequest
request_with now v item none = none
request_with now v item (some song) = some (new_request now v item song)

-- The write of an item, given its row; a row whose song_id is set to NULL waits for the flush that
-- fails on it.
unfoldable pub write_item :
    Clock → ℕ → SyncQueueItem → Option ℕ → Option QueueRequest → Action (Unit {0})
write_item c v item song none = with_request (request_with c.now v item song)
write_item c v item song (some r) = do
  modify (write_request r.id (written_request c.now item song))
  if is_none song && not (keeps_song item.status) then with_request none else pure tt

-- `(item.notes or item.singer_name or "Unknown").strip() or "Unknown"`
abbrev pub fallback_stage : Texts → SyncQueueItem → String
fallback_stage texts item =
    text_or (some (texts.strip (text_or item.notes (text_or item.singer_name "Unknown")))) "Unknown"

-- One item of `_apply_queue` that the server does not win.
unfoldable pub apply_item : Clock → Texts → ℕ → SyncQueueItem → Action ℕ
apply_item c texts v item = do
  ensure_singer_exists c texts v item.singer_id (fallback_stage texts item)
  song ← resolve_or_create_song texts v item.song_id item.song_title item.song_artist
  if is_some song && is_some item.song_id then flush else pure tt
  row ← gets (λ t. find (request_at v item.request_id) t.queue_requests)
  write_item c v item song row
  pure 1

unfoldable pub apply_items : Clock → Texts → ℕ → List Conflict → List SyncQueueItem → Action ℕ
apply_items c texts v res [] = pure 0
apply_items c texts v res (item ∷ items) = do
  n ←
      if is_server_wins (resolution_of queue_entity item.request_id res)
      then pure 0
      else apply_item c texts v item
  m ← apply_items c texts v res items
  pure (n + m)

abbrev pub drop_request : ℕ → QueueRequest → QueueRequest
drop_request now r = record r { deleted_at = some now; updated_at = some now }

-- A request is deleted unless a resolution lets the server win.
unfoldable pub delete_requests : Clock → ℕ → List Conflict → List ℕ → Action (Unit {0})
delete_requests c v res [] = pure tt
delete_requests c v res (k ∷ ks) = do
  row ← gets (λ t. find (request_at v k) t.queue_requests)
  if is_some row && not (is_server_wins (resolution_of queue_entity k res))
      then modify (write_request k (drop_request c.now))
      else pure tt
  delete_requests c v res ks

-- `_apply_queue`
unfoldable pub apply_queue :
    Clock → Texts → ℕ → List Conflict → Option (Part SyncQueueItem) → Action ℕ
apply_queue c texts v res none = pure 0
apply_queue c texts v res (some p) = do
  n ← apply_items c texts v res p.items
  delete_requests c v res p.deleted_ids
  pure n

abbrev pub set_value : SyncSettingItem → VenueConfig → VenueConfig
set_value item r = record r { config_value = item.value; updated_at = some item.updated_at }

abbrev pub new_setting : ℕ → SyncSettingItem → VenueConfig
new_setting v item = record {
  venue_id = v;
  config_key = item.key;
  config_value = item.value;
  updated_at = some item.updated_at;
}

-- `field_winners.get("value") == "server"`, of a resolution that merges; here `client_state` names
-- no winner.
abbrev pub server_value : Option Conflict → Bool
server_value none = false
server_value (some c) =
    is_merge (some c)
    && elim (field_winner value (record c { client_state = [] })) [ some server ↦ true | _ ↦ false ]

unfoldable pub apply_setting : ℕ → SyncSettingItem → Option Conflict → Option VenueConfig → Action ℕ
apply_setting v item res none =
    add (λ p. record p { venue_configs = p.venue_configs ++ new_setting v item ∷ [] }) >> pure 1
apply_setting v item res (some r) =
    if server_value res
    then pure 0
    else (modify (λ t. record t {
      venue_configs = update_where (setting_at v item.key) (set_value item) t.venue_configs;
    })
        >> pure 1)

unfoldable pub apply_setting_items : ℕ → List Conflict → List SyncSettingItem → Action ℕ
apply_setting_items v res [] = pure 0
apply_setting_items v res (item ∷ items) = do
  row ← gets (λ t. find (setting_at v item.key) t.venue_configs)
  n ←
      let found = resolution_of settings_entity item.key res in
      if is_server_wins found then pure 0 else apply_setting v item found row
  m ← apply_setting_items v res items
  pure (n + m)

-- `_apply_settings`
unfoldable pub apply_settings : ℕ → List Conflict → Option (Part SyncSettingItem) → Action ℕ
apply_settings v res none = pure 0
apply_settings v res (some p) = apply_setting_items v res p.items
