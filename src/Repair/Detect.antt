-- ===== src/Repair/Detect.antt =====
-- The conflicts of a snapshot with the rows of the venue (app/services/repair_sync.py, from
-- `_detect_singer_conflicts` to `detect_conflicts`).
use scales_infrastructure.Prelude.{
  ℕ, Bool, false, ◌&&◌, Option, none, some, List, [], ◌∷◌, ◌++◌, ◌==◌, ltb, find, if◌then◌else◌,
}
use scales_infrastructure.Models.Tables.{QueueRequest, Singer, VenueConfig, Tables}
use scales_infrastructure.Repair.{
  SyncSingerItem, SyncQueueItem, SyncSettingItem, Part, Snapshot, EntityType, singers_entity,
  queue_entity, settings_entity, server_wins, Conflict,
}

abbrev pub singer_at : ℕ → ℕ → Singer → Bool
singer_at v k r = (r.id == k) && (r.venue_id == v)

abbrev pub request_at : ℕ → ℕ → QueueRequest → Bool
request_at v k r = (r.id == k) && (r.venue_id == v)

abbrev pub setting_at : ℕ → ℕ → VenueConfig → Bool
setting_at v k r = (r.venue_id == v) && (r.config_key == k)

-- `is_conflict`: the row is newer than what the client last saw; a NULL on either side is none.
abbrev pub is_newer : Option ℕ → Option ℕ → Bool
is_newer (some modified) (some updated) = ltb modified updated
is_newer _ _ = false

abbrev newer_row {ℓ} : {A : Type ℓ} → (A → Option ℕ) → Option ℕ → Option A → Bool
newer_row updated modified none = false
newer_row updated modified (some r) = is_newer modified (updated r)

abbrev conflict_of : EntityType → ℕ → Conflict
conflict_of e k = record {
  entity_type = e;
  entity_id = k;
  resolution = server_wins;
  field_resolutions = [];
  client_state = [];
}

-- The keys whose row is newer, as conflicts.
abbrev pub newer_keys {ℓ} :
    {A : Type ℓ}
    → EntityType
    → (ℕ → A → Bool)
    → (A → Option ℕ)
    → List A
    → Option ℕ
    → List ℕ
    → List Conflict
newer_keys e at updated rows modified [] = []
newer_keys e at updated rows modified (k ∷ ks) =
    let rest = newer_keys e at updated rows modified ks in
    if newer_row updated modified (find (at k) rows) then conflict_of e k ∷ rest else rest

abbrev keys {ℓ} : {A : Type ℓ} → (A → ℕ) → List A → List ℕ
keys key [] = []
keys key (x ∷ xs) = key x ∷ keys key xs

-- A part without items has no conflicts, whatever it deletes.
abbrev pub part_conflicts {ℓ} :
    {A : Type 0} {B : Type ℓ}
    → EntityType
    → (A → ℕ)
    → (ℕ → B → Bool)
    → (B → Option ℕ)
    → List B
    → Option (Part A)
    → List Conflict
part_conflicts e key at updated rows none = []
part_conflicts e key at updated rows (some p) = elim p.items [
  | [] ↦ []
  | x ∷ xs ↦
      newer_keys e at updated rows p.last_modified_at (keys key (x ∷ xs))
      ++ newer_keys e at updated rows p.last_modified_at p.deleted_ids
]

-- `_detect_singer_conflicts`
pub detect_singer_conflicts : ℕ → Option (Part SyncSingerItem) → Tables → List Conflict
detect_singer_conflicts v p t =
    part_conflicts singers_entity (λ (i : SyncSingerItem). i.id) (singer_at v) (λ r. r.updated_at)
      t.singers p

-- `_detect_queue_conflicts`
pub detect_queue_conflicts : ℕ → Option (Part SyncQueueItem) → Tables → List Conflict
detect_queue_conflicts v p t =
    part_conflicts queue_entity (λ (i : SyncQueueItem). i.request_id) (request_at v)
      (λ r. r.updated_at) t.queue_requests p

-- The settings of a part, which deletes none.
abbrev without_deletions : Option (Part SyncSettingItem) → Option (Part SyncSettingItem)
without_deletions none = none
without_deletions (some p) = some (record p { deleted_ids = [] })

-- `_detect_settings_conflicts`
pub detect_settings_conflicts : ℕ → Option (Part SyncSettingItem) → Tables → List Conflict
detect_settings_conflicts v p t =
    part_conflicts settings_entity (λ (i : SyncSettingItem). i.key) (setting_at v)
      (λ r. r.updated_at) t.venue_configs (without_deletions p)

-- `detect_conflicts`
unfoldable pub detect_conflicts : ℕ → Snapshot → Tables → List Conflict
unfolding detect_singer_conflicts detect_queue_conflicts detect_settings_conflicts
detect_conflicts v snapshot t =
    detect_singer_conflicts v snapshot.singers t
    ++ detect_queue_conflicts v snapshot.queue t
    ++ detect_settings_conflicts v snapshot.settings t
