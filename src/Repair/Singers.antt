-- ===== src/Repair/Singers.antt =====
-- The singers of a snapshot, and stubs for singers and songs that are missing
-- (app/services/repair_sync.py: `_apply_singers`, `_ensure_singer_exists`,
-- `_resolve_or_create_song`).
use scales_infrastructure.Prelude.{
  ℕ, pos, ◌+◌, Bool, not, ◌&&◌, Option, none, some, List, [], ◌∷◌, ◌++◌, String, ◌==◌, is_none,
  is_some, any_of, find, length, update_where, if◌then◌else◌,
}
use text.Mathlib.Text.{◌==◌ as str_eq}
use scales_infrastructure.Models.Tables.{Role, QueueRequest, Singer, Song, Tables}
use scales_infrastructure.Models.Session.{Clock, Pending, Action, pure, gets, modify, ◌>>=◌, ◌>>◌}
use scales_infrastructure.Models.Session.Flush.{add, new_key}
use scales_infrastructure.Queue.Rotation.{text_or}
use scales_infrastructure.Repair.{
  SyncSingerItem, Part, singers_entity, Conflict, resolution_of, is_server_wins, is_client_wins,
  merge_field, stage_name, first_name, last_name, real_name, pronouns, email, phone, last_seen,
  deactivated_at,
}
use scales_infrastructure.Repair.Detect.{singer_at}
use scales_infrastructure.Repair.Names.{free_name}

-- What Python and its uuid4 give: `strip`, `f"{base} ({n})"`, and a key that is new.
pub record Texts : Type 0 where
  pub strip : String → String
  pub numbered : String → ℕ → String
  pub uuid : Tables → Pending → ℕ

abbrev pub with_singer : Singer → Action (Unit {0})
with_singer r = add (λ p. record p { singers = p.singers ++ r ∷ [] })

abbrev pub with_request : Option QueueRequest → Action (Unit {0})
with_request r = add (λ p. record p { queue_requests = p.queue_requests ++ r ∷ [] })

-- `_singer_item_to_dict` has the empty text for NULL.
abbrev pub shown_text : Option String → Option String
shown_text t = some (text_or t "")

-- `_merge_singer`, and the assignments after it: what the server manages is not written.
abbrev pub merged_singer : ℕ → SyncSingerItem → Option Conflict → Singer → Singer
merged_singer now item res r = record r {
  stage_name = merge_field res stage_name r.stage_name item.stage_name;
  first_name = merge_field res first_name (shown_text r.first_name) item.first_name;
  last_name = merge_field res last_name (shown_text r.last_name) item.last_name;
  real_name = merge_field res real_name (shown_text r.real_name) item.real_name;
  pronouns = merge_field res pronouns (shown_text r.pronouns) item.pronouns;
  email = merge_field res email (shown_text r.email) item.email;
  phone = merge_field res phone (shown_text r.phone) item.phone;
  last_seen =
      (let seen = merge_field res last_seen r.last_seen item.last_seen in
        if is_some seen then seen else r.last_seen);
  deactivated_at = merge_field res deactivated_at r.deactivated_at item.deactivated_at;
  updated_at = some now;
}

abbrev pub bare_singer : ℕ → ℕ → ℕ → String → Singer
bare_singer now v k name = record {
  id = k;
  account_id = none;
  venue_id = v;
  stage_name = name;
  first_name = none;
  last_name = none;
  real_name = none;
  pronouns = none;
  email = none;
  phone = none;
  role = some Role.singer;
  loyalty_tier_id = none;
  total_points = some (pos 0);
  last_seen = none;
  deactivated_at = none;
  linked_singer_id = none;
  created_at = some now;
  updated_at = some now;
  deleted_at = none;
}

abbrev pub new_singer : ℕ → ℕ → SyncSingerItem → Singer
new_singer now v item = record (bare_singer now v item.id item.stage_name) {
  first_name = item.first_name;
  last_name = item.last_name;
  real_name = item.real_name;
  pronouns = item.pronouns;
  email = item.email;
  phone = item.phone;
  last_seen = item.last_seen;
  deactivated_at = item.deactivated_at;
  created_at = some item.created_at;
}

abbrev pub write_singer : ℕ → (Singer → Singer) → Tables → Tables
write_singer k f t = record t { singers = update_where (λ (r : Singer). r.id == k) f t.singers }

-- One item of `_apply_singers`, given its row; the result is what it adds to `synced`.
unfoldable pub apply_singer :
    Clock → ℕ → SyncSingerItem → Option Conflict → Option Singer → Action ℕ
apply_singer c v item res none = with_singer (new_singer c.now v item) >> pure 1
apply_singer c v item res (some r) =
    if is_server_wins res
    then pure 0
    else (modify (write_singer r.id (merged_singer c.now item res)) >> pure 1)

unfoldable pub apply_singer_items : Clock → ℕ → List Conflict → List SyncSingerItem → Action ℕ
apply_singer_items c v res [] = pure 0
apply_singer_items c v res (item ∷ items) = do
  row ← gets (λ t. find (singer_at v item.id) t.singers)
  n ← apply_singer c v item (resolution_of singers_entity item.id res) row
  m ← apply_singer_items c v res items
  pure (n + m)

abbrev pub drop_singer : ℕ → Singer → Singer
drop_singer now r = record r { deleted_at = some now; updated_at = some now }

-- A singer is deleted where a resolution lets the client win, and only there.
unfoldable pub delete_singers : Clock → ℕ → List Conflict → List ℕ → Action (Unit {0})
delete_singers c v res [] = pure tt
delete_singers c v res (k ∷ ks) = do
  row ← gets (λ t. find (singer_at v k) t.singers)
  if is_some row && is_client_wins (resolution_of singers_entity k res)
      then modify (write_singer k (drop_singer c.now))
      else pure tt
  delete_singers c v res ks

-- `_apply_singers`
unfoldable pub apply_singers : Clock → ℕ → List Conflict → Option (Part SyncSingerItem) → Action ℕ
apply_singers c v res none = pure 0
apply_singers c v res (some p) = do
  n ← apply_singer_items c v res p.items
  delete_singers c v res p.deleted_ids
  pure n

abbrev pub named : ℕ → String → Singer → Bool
named v name r = (r.venue_id == v) && str_eq r.stage_name name

-- `base_stage` with the number of the loop; the first name has none.
abbrev pub numbered_name : Texts → String → ℕ → String
numbered_name texts base n = if n == 1 then base else texts.numbered base n

-- The name that the loop of `_ensure_singer_exists` ends with; the passes are as many as the rows.
abbrev pub stage_name_for : Texts → ℕ → String → List Singer → String
stage_name_for texts v base rows =
    free_name (λ name. any_of (named v name) rows) (numbered_name texts base) 1 (length rows)

-- `_ensure_singer_exists`
unfoldable pub ensure_singer_exists : Clock → Texts → ℕ → ℕ → String → Action (Unit {0})
ensure_singer_exists c texts v k base = do
  row ← gets (λ t. find (singer_at v k) t.singers)
  name ← gets (λ t. stage_name_for texts v base t.singers)
  if is_some row then pure tt else with_singer (bare_singer c.now v k name)

abbrev pub song_at : ℕ → ℕ → Song → Bool
song_at v k r = (r.id == k) && (r.venue_id == v)

-- `if song_id:` the row with this key.
abbrev pub song_by_id : ℕ → Option ℕ → List Song → Option Song
song_by_id v none songs = none
song_by_id v (some k) songs = find (song_at v k) songs

abbrev pub is_given : Option String → Bool
is_given t = not (str_eq (text_or t "") "")

abbrev pub titled : ℕ → Option String → Option String → Song → Bool
titled v title artist r =
    (r.venue_id == v)
    && str_eq r.title (text_or title "")
    && str_eq r.artist (text_or artist "")
    && is_none r.deleted_at

-- `if song_title and song_artist:` a live row with both.
abbrev pub song_by_title : ℕ → Option String → Option String → List Song → Option Song
song_by_title v title artist songs =
    if is_given title && is_given artist then find (titled v title artist) songs else none

abbrev pub new_song : ℕ → ℕ → Option ℕ → Option String → Option String → Song
new_song v k catalog title artist = record {
  id = k;
  venue_id = v;
  catalog_id = catalog;
  title = text_or title "Unknown";
  artist = text_or artist "Unknown";
  deleted_at = none;
}

abbrev pub found_or : Option Song → Option Song → Option Song
found_or (some r) second = some r
found_or none second = second

abbrev pub take_or_add : Song → Option Song → Action (Option ℕ)
take_or_add fresh (some r) = pure (some r.id)
take_or_add fresh none =
    add (λ p. record p { songs = p.songs ++ fresh ∷ [] }) >> pure (some fresh.id)

-- `_resolve_or_create_song`
unfoldable pub resolve_or_create_song :
    Texts → ℕ → Option ℕ → Option String → Option String → Action (Option ℕ)
resolve_or_create_song texts v song title artist = do
  row ← gets (λ t. found_or (song_by_id v song t.songs) (song_by_title v title artist t.songs))
  k ← new_key texts.uuid
  if is_none song && not (is_given title)
      then pure none
      else take_or_add (new_song v k song title artist) row
