-- ===== src/Tests/HostRuns.antt =====
-- Runs of app/core/host_rotation_service.py.
use scales_infrastructure.Prelude.{
  ℕ, suc, max, ◌≤◌, ◌≡◌, refl, Bool, false, none, some, List, [], ◌∷◌, pos, count, select, get_or,
  find, update_where, arith,
}
use scales_infrastructure.Models.Tables.{
  Status, pending, approved, up_next, now_playing, host, HostRotation,
}
use scales_infrastructure.Models.Session.{Session, err, status_not_allowed, empty}
use scales_infrastructure.Queue.Rows.{is_now_playing}
use scales_infrastructure.Host.Rows.{has_id, marked_at, now_playing_row, next_row}
use scales_infrastructure.Host.Broadcast.{start_row}
use scales_infrastructure.Host.Snapshot.{SnapshotItem, upsert_snapshot}
use scales_infrastructure.Host.Snapshot.Lines.{Line}
use scales_infrastructure.Host.Snapshot.Refused.{upsert_snapshot-approved}
use scales_infrastructure.Host.Playing.{Request, of_singer, staged_row, stage_row, set_now_playing}
use scales_infrastructure.Host.Playing.Stage.{set_now_playing-by_key, set_now_playing-by_singer}
use scales_infrastructure.Host.Actions.{skip, skip_row}
use scales_infrastructure.Host.Actions.Advance.{skip-starts}
use scales_infrastructure.Host.Sound.{IsSound}
use scales_infrastructure.Host.History.{
  IsFresh, complete_call, set_now_playing_call, perform_all, stage_all-IsSound,
}
use scales_infrastructure.Tests.Samples.{evening, session_of}

-- An item of venue 7: key, singer, status, position.
abbrev item_of : ℕ → ℕ → Status → ℕ → HostRotation
item_of rid singer status place = record {
  id = rid;
  venue_id = 7;
  singer_id = singer;
  song_id = none;
  song_title = none;
  rotation_session_id = none;
  status = status;
  sort_order = some place;
  rotation_position = some place;
  notes = none;
  reject_reason = none;
  tempo = pos 0;
  pitch = pos 0;
  source = host;
  kj_id = none;
  requested_at = some 20260314210000;
  completed_at = none;
  updated_at = none;
  deleted_at = none;
}

abbrev rotation : List HostRotation
rotation = item_of 1 31 now_playing 1 ∷ item_of 2 32 up_next 2 ∷ item_of 3 33 pending 3 ∷ []

abbrev quiet_rotation : List HostRotation
quiet_rotation = item_of 2 32 up_next 2 ∷ item_of 3 33 pending 3 ∷ []

abbrev host_session : List HostRotation → Session
host_session rows = let s = session_of [] in record s { db = record s.db { host_rotation = rows } }

unique_keys : (k : ℕ) → count (has_id k) rotation ≤ 1
unique_keys k = ground arith

abbrev next_key : List HostRotation → ℕ
next_key [] = 0
next_key (r ∷ rows) = max (suc r.id) (next_key rows)

next_key_above : (rows : List HostRotation) (k : ℕ) → next_key rows ≤ k → count (has_id k) rows ≡ 0
next_key_above [] k h = refl
next_key_above (r ∷ rows) k h = ground (arith, next_key_above rows k)

next_key-IsFresh : IsFresh next_key
next_key-IsFresh rows = next_key_above rows (next_key rows) (omega arith)

abbrev request_of : ℕ → Request
request_of singer = record {
  singer_id = some singer;
  song_id = none;
  song_title = some "Creep";
  song_artist = none;
  singer_name = some "Ada";
  notes = none;
  is_dj_track = false;
  request_id = none;
}

abbrev request_by_key : ℕ → Request
request_by_key rid = let q = request_of 0 in record q { singer_id = none; request_id = some rid }

rotation-IsSound : IsSound 7 (host_session rotation).db
rotation-IsSound = record { ids = unique_keys; single = omega arith }

stage_all-IsSound_example :
    IsSound 7
      (perform_all 7 next_key
        ((evening, set_now_playing_call (request_of 34)) ∷ (evening, complete_call 4) ∷ [])
        (host_session rotation)).db
stage_all-IsSound_example =
    stage_all-IsSound 7 next_key
      ((evening, set_now_playing_call (request_of 34)) ∷ (evening, complete_call 4) ∷ [])
      (host_session rotation) next_key-IsFresh rotation-IsSound

abbrev snapshot_item : ℕ → ℕ → Status → ℕ → SnapshotItem
snapshot_item rid singer status place = record {
  id = some rid;
  singer_id = singer;
  song_id = none;
  song_title = none;
  status = status;
  rotation_position = some place;
  sort_order = some place;
  notes = none;
  reject_reason = none;
  tempo = pos 0;
  pitch = pos 0;
  kj_id = none;
}

abbrev snapshot : List SnapshotItem
snapshot = snapshot_item 2 32 now_playing 1 ∷ snapshot_item 9 35 pending 2 ∷ []

abbrev on_stage_line : Line → Bool
on_stage_line l = is_now_playing l.status

abbrev approved_snapshot : List SnapshotItem
approved_snapshot = snapshot_item 2 32 now_playing 1 ∷ snapshot_item 9 35 approved 2 ∷ []

upsert_snapshot-approved_example :
    upsert_snapshot evening 7 next_key approved_snapshot none (host_session rotation) ≡ (
      err status_not_allowed,
      (let s = host_session rotation in record s { db = s.committed; pending = empty }),
    )
upsert_snapshot-approved_example =
    upsert_snapshot-approved evening 7 next_key approved_snapshot none (host_session rotation)
      unique_keys ((2, refl, refl), ((9, refl, refl), tt)) (refl, (refl, tt)) refl

set_now_playing-by_key_example :
    select
      (marked_at 7)
      (set_now_playing evening 7 next_key
        (request_by_key 3)
        (host_session rotation)).1.db.host_rotation
    ≡ staged_row 20260314213000 (request_by_key 3) (item_of 3 33 pending 3) ∷ []
set_now_playing-by_key_example =
    set_now_playing-by_key evening 7 next_key (request_by_key 3) 3 (item_of 3 33 pending 3)
      (host_session rotation) refl refl refl (unique_keys 3)

set_now_playing-by_singer_example :
    select
      (marked_at 7)
      (set_now_playing evening 7 next_key
        (request_of 34)
        (host_session rotation)).1.db.host_rotation
    ≡ staged_row 20260314213000 (request_of 34) (
        get_or
          (find (of_singer 7 34) rotation)
          (stage_row 20260314213000 7 (next_key rotation) 34 (request_of 34)))
      ∷ []
set_now_playing-by_singer_example =
    set_now_playing-by_singer evening 7 next_key (request_of 34) 34 (host_session rotation) refl
      refl refl unique_keys (next_key-IsFresh rotation)

skip-starts_example :
    (skip evening 7 3 (host_session quiet_rotation)).1.committed.host_rotation
    ≡ update_where
        (has_id 2)
        (start_row 20260314213000)
        (update_where (has_id 3) (skip_row 20260314213000) quiet_rotation)
unfolding now_playing_row next_row
skip-starts_example =
    skip-starts evening 7 3 (host_session quiet_rotation) (item_of 3 33 pending 3)
      (item_of 2 32 up_next 2) refl refl refl refl
