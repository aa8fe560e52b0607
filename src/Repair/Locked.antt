-- ===== src/Repair/Locked.antt =====
-- What the server manages of a singer stays as it is in a repair sync (app/services/repair_sync.py).
pub mod Playing
use scales_infrastructure.Prelude.{
  ℕ, ℤ, ◌≡◌, refl, ◌∙◌, Bool, true, false, Option, none, some, String, List, [], ◌∷◌, ◌++◌, ◌==◌,
  find, update_where, Bool-cases, inl, inr, if◌then◌else◌, arith,
}
use scales_infrastructure.Models.Tables.{Singer, Song, QueueRequest, VenueConfig, Tables}
use scales_infrastructure.Models.Session.{Clock, Pending, Session, Action, Result, ok, err, ◌>>=◌}
use scales_infrastructure.Models.Session.Flush.{written, flush}
use scales_infrastructure.Models.Session.Keeps.{
  Quiet, Quiet-gets, Quiet-bind, Quiet-flush, Quiet-pure, Quiet-if, Quiet-modify, quiet_rules,
}
use scales_infrastructure.Queue.Broadcast.{
  broadcast_queue_state, broadcast_live, broadcast_offline, dedupe_now_playing,
}
use scales_infrastructure.Repair.{
  SyncSingerItem, SyncQueueItem, SyncSettingItem, NowPlayingSnapshot, Part, Snapshot, Conflict,
}
use scales_infrastructure.Repair.Singers.{
  Texts, apply_singer, apply_singer_items, delete_singers, apply_singers, write_singer,
  merged_singer, drop_singer, with_singer, with_request, ensure_singer_exists,
  resolve_or_create_song, take_or_add,
}
use scales_infrastructure.Repair.Requests.{
  write_request, write_item, apply_item, apply_items, delete_requests, apply_queue, apply_setting,
  apply_setting_items, apply_settings,
}
use scales_infrastructure.Repair.Apply.{
  demote, play_singer, play, place_now_playing, set_song, song_of_snapshot, announce,
  apply_now_playing, apply_parts, apply_snapshot, Summary,
}

-- The account, the points and the tier of the singer with a key.
pub record Managed : Type 0 where
  pub account_id : Option ℕ
  pub total_points : Option ℤ
  pub loyalty_tier_id : Option ℕ

abbrev managed_row : Singer → Managed
managed_row r = record {
  account_id = r.account_id;
  total_points = r.total_points;
  loyalty_tier_id = r.loyalty_tier_id;
}

abbrev managed_or : Bool → Managed → Option Managed → Option Managed
managed_or true m rest = some m
managed_or false m rest = rest

unfoldable pub managed_of : ℕ → List Singer → Option Managed
managed_of k [] = none
managed_of k (r ∷ rows) = managed_or (r.id == k) (managed_row r) (managed_of k rows)

module _ (k : ℕ) (x : Managed) where
  abbrev pub IsManaged : Tables → Type 0
  IsManaged t = managed_of k t.singers ≡ some x

  pub managed_of-append :
      (rows more : List Singer) → managed_of k rows ≡ some x → managed_of k (rows ++ more) ≡ some x
  unfolding managed_of
  managed_of-append [] more h = absurd (ground arith)
  managed_of-append (r ∷ rows) more h =
      managed_or-append (r.id == k) (managed_row r) (managed_of-append rows more) h
    where
      managed_or-append :
          {a b : Option Managed} (hit : Bool) (m : Managed)
          → (a ≡ some x → b ≡ some x)
          → managed_or hit m a ≡ some x
          → managed_or hit m b ≡ some x
      managed_or-append true m step e = e
      managed_or-append false m step e = step e

  managed_of-cons :
      (a b : Singer) (xs ys : List Singer)
      → a.id ≡ b.id
      → managed_row a ≡ managed_row b
      → managed_of k xs ≡ managed_of k ys
      → managed_of k (a ∷ xs) ≡ managed_of k (b ∷ ys)
  unfolding managed_of
  managed_of-cons a b xs ys same_id same_row rest i =
      managed_or (same_id i == k) (same_row i) (rest i)

  managed_of-update :
      (p : Singer → Bool) (f : Singer → Singer)
      → ((r : Singer) → (f r).id ≡ r.id)
      → ((r : Singer) → managed_row (f r) ≡ managed_row r)
      → (rows : List Singer) → managed_of k (update_where p f rows) ≡ managed_of k rows
  managed_of-update p f same_id same_row [] = refl
  managed_of-update p f same_id same_row (r ∷ rows) = elim (Bool-cases (p r)) [
    | inl hit ↦ rw hit (
        managed_of-cons (f r) r _ rows (same_id r) (same_row r)
          (managed_of-update p f same_id same_row rows))
    | inr miss ↦
        rw miss (managed_of-cons r r _ rows refl refl (managed_of-update p f same_id same_row rows))
  ]

  write_singer-IsManaged :
      (j : ℕ) (f : Singer → Singer)
      → ((r : Singer) → (f r).id ≡ r.id)
      → ((r : Singer) → managed_row (f r) ≡ managed_row r)
      → (t : Tables) → IsManaged t
      → IsManaged (write_singer j f t)
  write_singer-IsManaged j f same_id same_row t h =
      managed_of-update (λ (r : Singer). r.id == j) f same_id same_row t.singers ∙ h

-- What may change in a repair sync: rows of singers outside what the server manages, new rows, and
-- any row of the queue and of the settings.
pub record IsHarmless (P : Tables → Type 0) : Type 0 where
  pub writes :
      (j : ℕ) (f : Singer → Singer)
      → ((r : Singer) → (f r).id ≡ r.id)
      → ((r : Singer) → managed_row (f r) ≡ managed_row r)
      → (t : Tables) → P t
      → P (write_singer j f t)
  pub flushes : (p : Pending) (t : Tables) → P t → P (written p t)
  pub requests :
      (rows : List QueueRequest) (t : Tables) → P t → P (record t { queue_requests = rows })
  pub settings :
      (rows : List VenueConfig) (t : Tables) → P t → P (record t { venue_configs = rows })

pub IsManaged-IsHarmless : (k : ℕ) (x : Managed) → IsHarmless (IsManaged k x)
unfolding written
IsManaged-IsHarmless k x = record {
  writes = write_singer-IsManaged k x;
  flushes = λ p t h. managed_of-append k x t.singers p.singers h;
  requests = λ rows t h. h;
  settings = λ rows t h. h;
}

module _ {P : Tables → Type 0} (safe : IsHarmless P) where
  pub flush-Quiet : Quiet P flush
  flush-Quiet = Quiet-flush safe.flushes

  apply_singer-Quiet :
      (c : Clock) (v : ℕ) (item : SyncSingerItem) (res : Option Conflict) (row : Option Singer)
      → Quiet P (apply_singer c v item res row)
  unfolding apply_singer
  apply_singer-Quiet c v item res none = search quiet_rules depth 20
  apply_singer-Quiet c v item res (some r) = search (quiet_rules, merged-Quiet) depth 20
    where
      merged-Quiet : (t : Tables) → P t → P (write_singer r.id (merged_singer c.now item res) t)
      merged-Quiet t h = safe.writes r.id (merged_singer c.now item res) (λ q. refl) (λ q. refl) t h

  apply_singer_items-Quiet :
      (c : Clock) (v : ℕ) (res : List Conflict) (items : List SyncSingerItem)
      → Quiet P (apply_singer_items c v res items)
  unfolding apply_singer_items
  apply_singer_items-Quiet c v res [] = search quiet_rules
  apply_singer_items-Quiet c v res (item ∷ items) = Quiet-bind _ _ (Quiet-gets _) (λ row.
      Quiet-bind _ _ (apply_singer-Quiet c v item _ row)
        (λ n. Quiet-bind _ _ (apply_singer_items-Quiet c v res items) (λ m. Quiet-pure _)))

  drop_singer-Quiet : (now j : ℕ) (t : Tables) → P t → P (write_singer j (drop_singer now) t)
  drop_singer-Quiet now j t h = safe.writes j (drop_singer now) (λ q. refl) (λ q. refl) t h

  delete_singers-Quiet :
      (c : Clock) (v : ℕ) (res : List Conflict) (ks : List ℕ) → Quiet P (delete_singers c v res ks)
  unfolding delete_singers
  delete_singers-Quiet c v res [] = search quiet_rules
  delete_singers-Quiet c v res (j ∷ ks) = Quiet-bind _ _ (Quiet-gets _) (λ row.
      Quiet-bind _ _ (search (quiet_rules, drop_singer-Quiet) depth 20)
        (λ d. delete_singers-Quiet c v res ks))

  apply_singers-Quiet :
      (c : Clock) (v : ℕ) (res : List Conflict) (p : Option (Part SyncSingerItem))
      → Quiet P (apply_singers c v res p)
  unfolding apply_singers
  apply_singers-Quiet c v res none = search quiet_rules
  apply_singers-Quiet c v res (some p) =
      search (quiet_rules, apply_singer_items-Quiet, delete_singers-Quiet) depth 20

  ensure_singer_exists-Quiet :
      (c : Clock) (texts : Texts) (v j : ℕ) (base : String)
      → Quiet P (ensure_singer_exists c texts v j base)
  unfolding ensure_singer_exists
  ensure_singer_exists-Quiet c texts v j base = search quiet_rules depth 20

  take_or_add-Quiet : (fresh : Song) (row : Option Song) → Quiet P (take_or_add fresh row)
  take_or_add-Quiet fresh none = search quiet_rules depth 20
  take_or_add-Quiet fresh (some r) = search quiet_rules

  pub resolve_or_create_song-Quiet :
      (texts : Texts) (v : ℕ) (song : Option ℕ) (title artist : Option String)
      → Quiet P (resolve_or_create_song texts v song title artist)
  unfolding resolve_or_create_song
  resolve_or_create_song-Quiet texts v song title artist =
      search (quiet_rules, take_or_add-Quiet) depth 20

  write_item-Quiet :
      (c : Clock) (v : ℕ) (item : SyncQueueItem) (song : Option ℕ) (row : Option QueueRequest)
      → Quiet P (write_item c v item song row)
  unfolding write_item
  write_item-Quiet c v item song none = search quiet_rules
  write_item-Quiet c v item song (some r) =
      Quiet-bind _ _ (Quiet-modify _ (λ t h. safe.requests _ t h))
        (λ d. search quiet_rules depth 20)

  apply_item-Quiet :
      (c : Clock) (texts : Texts) (v : ℕ) (item : SyncQueueItem)
      → Quiet P (apply_item c texts v item)
  unfolding apply_item
  apply_item-Quiet c texts v item =
      search
        (
          quiet_rules, ensure_singer_exists-Quiet, resolve_or_create_song-Quiet, flush-Quiet,
          write_item-Quiet,
        )
        depth 20

  apply_items-Quiet :
      (c : Clock) (texts : Texts) (v : ℕ) (res : List Conflict) (items : List SyncQueueItem)
      → Quiet P (apply_items c texts v res items)
  unfolding apply_items
  apply_items-Quiet c texts v res [] = search quiet_rules
  apply_items-Quiet c texts v res (item ∷ items) =
      Quiet-bind _ _ (search (quiet_rules, apply_item-Quiet) depth 20)
        (λ n. Quiet-bind _ _ (apply_items-Quiet c texts v res items) (λ m. Quiet-pure _))

  delete_requests-Quiet :
      (c : Clock) (v : ℕ) (res : List Conflict) (ks : List ℕ) → Quiet P (delete_requests c v res ks)
  unfolding delete_requests
  delete_requests-Quiet c v res [] = search quiet_rules
  delete_requests-Quiet c v res (j ∷ ks) = Quiet-bind _ _ (Quiet-gets _) (λ row.
      Quiet-bind _ _ (Quiet-if _ _ _ (Quiet-modify _ (λ t h. safe.requests _ t h)) (Quiet-pure _))
        (λ d. delete_requests-Quiet c v res ks))

  apply_queue-Quiet :
      (c : Clock) (texts : Texts) (v : ℕ) (res : List Conflict) (p : Option (Part SyncQueueItem))
      → Quiet P (apply_queue c texts v res p)
  unfolding apply_queue
  apply_queue-Quiet c texts v res none = search quiet_rules
  apply_queue-Quiet c texts v res (some p) =
      search (quiet_rules, apply_items-Quiet, delete_requests-Quiet) depth 20

  apply_setting-Quiet :
      (v : ℕ) (item : SyncSettingItem) (res : Option Conflict) (row : Option VenueConfig)
      → Quiet P (apply_setting v item res row)
  unfolding apply_setting
  apply_setting-Quiet v item res none = search quiet_rules depth 20
  apply_setting-Quiet v item res (some r) =
      Quiet-if _ _ _ (Quiet-pure _)
        (Quiet-bind _ _ (Quiet-modify _ (λ t h. safe.settings _ t h)) (λ d. Quiet-pure _))

  apply_setting_items-Quiet :
      (v : ℕ) (res : List Conflict) (items : List SyncSettingItem)
      → Quiet P (apply_setting_items v res items)
  unfolding apply_setting_items
  apply_setting_items-Quiet v res [] = search quiet_rules
  apply_setting_items-Quiet v res (item ∷ items) = Quiet-bind _ _ (Quiet-gets _) (λ row.
      Quiet-bind _ _ (Quiet-if _ _ _ (Quiet-pure _) (apply_setting-Quiet v item _ row))
        (λ n. Quiet-bind _ _ (apply_setting_items-Quiet v res items) (λ m. Quiet-pure _)))

  apply_settings-Quiet :
      (v : ℕ) (res : List Conflict) (p : Option (Part SyncSettingItem))
      → Quiet P (apply_settings v res p)
  unfolding apply_settings
  apply_settings-Quiet v res none = search quiet_rules
  apply_settings-Quiet v res (some p) = apply_setting_items-Quiet v res p.items

  pub apply_parts-Quiet :
      (c : Clock) (texts : Texts) (v : ℕ) (snapshot : Snapshot) (res : List Conflict)
      → Quiet P (apply_parts c texts v snapshot res)
  unfolding apply_parts
  apply_parts-Quiet c texts v snapshot res =
      search
        (quiet_rules, flush-Quiet, apply_singers-Quiet, apply_queue-Quiet, apply_settings-Quiet)
        depth 20
