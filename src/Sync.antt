-- ===== src/Sync.antt =====
-- What the KJ desktop pushes outside the queue (app/routers/kj_sync.py): the roster of singers, the
-- settings, and the removals that it has seen. A push collects its conflicts, commits the rest, and
-- answers 409 if there are conflicts: here the result is their keys.
pub mod Newer
pub mod Removals
pub mod Acknowledged
use scales_infrastructure.Prelude.{
  ℕ, ◌+◌, Bool, true, false, not, ◌&&◌, Option, none, some, List, [], ◌∷◌, ◌++◌, String, ◌==◌,
  is_none, is_some, get_or, any_of, count, find, update_where, if◌then◌else◌,
}
use scales_infrastructure.Models.Tables.{Singer, SingerRemoval, VenueConfig, Tables}
use scales_infrastructure.Models.Session.{
  Clock, venue_access_denied, Action, pure, gets, raise_if, modify, commit, ◌>>=◌, ◌>>◌,
}
use scales_infrastructure.Models.Session.Flush.{flush, add}
use scales_infrastructure.Queue.Rotation.{text_or}
use scales_infrastructure.Repair.{SyncSingerItem, SyncSettingItem, Part}
use scales_infrastructure.Repair.Detect.{singer_at, setting_at, is_newer}
use scales_infrastructure.Repair.Singers.{
  Texts, with_singer, write_singer, drop_singer, bare_singer, stage_name_for,
}
use scales_infrastructure.Repair.Requests.{set_value, new_setting}

-- `_require_venue_match`: the venue of the device, and the one that is asked for.
unfoldable pub require_venue_match : ℕ → ℕ → Action (Unit {0})
require_venue_match v current = raise_if (not (current == v)) venue_access_denied

-- The fields that the client edits.
abbrev pub edited_singer : ℕ → SyncSingerItem → Singer → Singer
edited_singer now item r = record r {
  stage_name = item.stage_name;
  first_name = item.first_name;
  last_name = item.last_name;
  real_name = item.real_name;
  pronouns = item.pronouns;
  email = item.email;
  phone = item.phone;
  last_seen = (if is_some item.last_seen then item.last_seen else r.last_seen);
  deactivated_at = item.deactivated_at;
  updated_at = some now;
}

abbrev pub pushed_singer : ℕ → ℕ → SyncSingerItem → String → Singer
pushed_singer now v item name = record (bare_singer now v item.id name) {
  first_name = item.first_name;
  last_name = item.last_name;
  real_name = item.real_name;
  pronouns = item.pronouns;
  email = item.email;
  phone = item.phone;
  total_points = some item.total_points;
  loyalty_tier_id = item.loyalty_tier_id;
  last_seen = item.last_seen;
  deactivated_at = item.deactivated_at;
  created_at = some item.created_at;
}

-- One item of `push_singers`, given its row.
unfoldable pub push_singer :
    Clock → Texts → ℕ → Option ℕ → SyncSingerItem → Option Singer → Action (List ℕ)
push_singer c texts v modified item none = do
  name ← gets (λ t. stage_name_for texts v (text_or (some item.stage_name) "Unknown") t.singers)
  with_singer (pushed_singer c.now v item name)
  pure []
push_singer c texts v modified item (some r) =
    if is_newer modified r.updated_at
    then pure (item.id ∷ [])
    else (modify (write_singer item.id (edited_singer c.now item)) >> pure [])

unfoldable pub push_singer_items :
    Clock → Texts → ℕ → Option ℕ → List SyncSingerItem → Action (List ℕ)
push_singer_items c texts v modified [] = pure []
push_singer_items c texts v modified (item ∷ items) = do
  row ← gets (λ t. find (singer_at v item.id) t.singers)
  here ← push_singer c texts v modified item row
  later ← push_singer_items c texts v modified items
  pure (here ++ later)

unfoldable pub push_deletion : Clock → Option ℕ → ℕ → Option Singer → Action (List ℕ)
push_deletion c modified k none = pure []
push_deletion c modified k (some r) =
    if is_newer modified r.updated_at
    then pure (k ∷ [])
    else (modify (write_singer k (drop_singer c.now)) >> pure [])

unfoldable pub push_deletions : Clock → ℕ → Option ℕ → List ℕ → Action (List ℕ)
push_deletions c v modified [] = pure []
push_deletions c v modified (k ∷ ks) = do
  row ← gets (λ t. find (singer_at v k) t.singers)
  here ← push_deletion c modified k row
  later ← push_deletions c v modified ks
  pure (here ++ later)

-- The rows of `push_singers`, to the flush of its commit.
unfoldable pub push_roster : Clock → Texts → ℕ → Part SyncSingerItem → Action (List ℕ)
unfolding push_singer_items push_deletions
push_roster c texts v body = do
  edits ← push_singer_items c texts v body.last_modified_at body.items
  deletions ← push_deletions c v body.last_modified_at body.deleted_ids
  flush
  pure (edits ++ deletions)

-- `push_singers`
unfoldable pub push_singers : Clock → Texts → Option ℕ → ℕ → Part SyncSingerItem → Action (List ℕ)
unfolding require_venue_match push_roster
push_singers c texts venue current body = do
  require_venue_match (get_or venue current) current
  conflicts ← push_roster c texts (get_or venue current) body
  commit
  pure conflicts

-- One item of `push_settings`, given its row: the key where it conflicts, and whether it is synced.
unfoldable pub push_setting :
    ℕ → Option ℕ → SyncSettingItem → Option VenueConfig → Action (List ℕ × ℕ)
push_setting v modified item none =
    add (λ p. record p { venue_configs = p.venue_configs ++ new_setting v item ∷ [] })
    >> pure ([], 1)
push_setting v modified item (some r) =
    if is_newer modified r.updated_at
    then pure (item.key ∷ [], 0)
    else (modify (λ t. record t {
      venue_configs = update_where (setting_at v item.key) (set_value item) t.venue_configs;
    })
        >> pure ([], 1))

unfoldable pub push_setting_items : ℕ → Option ℕ → List SyncSettingItem → Action (List ℕ × ℕ)
push_setting_items v modified [] = pure ([], 0)
push_setting_items v modified (item ∷ items) = do
  row ← gets (λ t. find (setting_at v item.key) t.venue_configs)
  here ← push_setting v modified item row
  later ← push_setting_items v modified items
  pure (here.0 ++ later.0, here.1 + later.1)

-- The rows of `push_settings`, to the flush of its commit.
unfoldable pub push_configs : ℕ → Part SyncSettingItem → Action (List ℕ × ℕ)
unfolding push_setting_items
push_configs v body = do
  outcome ← push_setting_items v body.last_modified_at body.items
  flush
  pure outcome

-- `push_settings`; its payload deletes nothing.
unfoldable pub push_settings : Option ℕ → ℕ → Part SyncSettingItem → Action (List ℕ × ℕ)
unfolding require_venue_match push_configs
push_settings venue current body = do
  require_venue_match (get_or venue current) current
  outcome ← push_configs (get_or venue current) body
  commit
  pure outcome

abbrev pub open_removal_of : ℕ → List ℕ → SingerRemoval → Bool
open_removal_of v ids r =
    (r.venue_id == v) && any_of (λ k. r.singer_id == k) ids && is_none r.acknowledged_at

-- `ack_singer_removals`, for the ids that look like UUIDs: the ids and how many rows.
unfoldable pub ack_singer_removals : Clock → Option ℕ → ℕ → List ℕ → Action (List ℕ × ℕ)
unfolding require_venue_match
ack_singer_removals c venue current ids = do
  require_venue_match (get_or venue current) current
  rows ← gets (λ t. count (open_removal_of (get_or venue current) ids) t.singer_removals)
  modify (λ t. record t {
    singer_removals =
        update_where (open_removal_of (get_or venue current) ids)
          (λ r. record r { acknowledged_at = some c.now }) t.singer_removals;
  })
  commit
  pure (ids, rows)
