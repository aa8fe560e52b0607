-- ===== src/Host/Broadcast.antt =====
-- The broadcast of the live rotation, and the start of its next item
-- (app/core/host_rotation_service.py, `broadcast_queue_state`, `_host_rotation_out`,
-- `_auto_advance`).
use scales_infrastructure.Prelude.{
  ℕ, suc, ◌+◌, ◌*◌, not, Option, none, some, List, [], ◌∷◌, ◌==◌, any_of, find, get_or, length,
  select, if◌then◌else◌,
}
use mathlib.Core.Option
use scales_infrastructure.Models.Tables.{now_playing, HostRotation}
use scales_infrastructure.Models.Events.{HostEntry, host_queue_state, host_now_playing, host_stats}
use scales_infrastructure.Models.Session.{Clock, Action, pure, gets, commit, publish, ◌>>=◌, ◌>>◌}
use scales_infrastructure.Queue.Rows.{is_now_playing}
use scales_infrastructure.Queue.Rotation.{avg_song_seconds, present}
use scales_infrastructure.Queue.Stats.{is_kj_online}
use scales_infrastructure.Host.Rows.{
  has_id, write_rows, reload, get_active_items, now_playing_row, next_row,
}

-- `_host_rotation_out`
unfoldable pub host_rotation_out : HostRotation → Option ℕ → ℕ → HostEntry
host_rotation_out r position est_wait = record {
  request_id = r.id;
  singer_id = r.singer_id;
  song_id = r.song_id;
  position = elim position [ none ↦ r.rotation_position | some n ↦ some n ];
  status = r.status;
  notes = present r.notes;
  requested_at = r.requested_at;
  updated_at = r.updated_at;
  played_at = r.completed_at;
  estimated_wait_seconds = est_wait;
}

-- The loop that fills `out_items`, from place `i` on; each place waits one song longer.
unfoldable pub out_items : ℕ → List HostRotation → List HostEntry
out_items i [] = []
out_items i (r ∷ rs) = host_rotation_out r (some i) (i * avg_song_seconds) ∷ out_items (suc i) rs

-- `len({it.singer_id for it in items})`
unfoldable pub distinct_singers : List HostRotation → ℕ
distinct_singers [] = 0
distinct_singers (r ∷ rs) =
    (if any_of (λ (q : HostRotation). q.singer_id == r.singer_id) rs then 0 else 1)
    + distinct_singers rs

-- The playing item with its `started_at`.
abbrev playing_out : Clock → HostRotation → HostEntry × ℕ
playing_out c r = (host_rotation_out r none 0, get_or r.requested_at c.now)

abbrev pub publish_playing : ℕ → Option (HostEntry × ℕ) → Action (Unit {0})
publish_playing v none = pure tt
publish_playing v (some (e, started)) = publish (host_now_playing v e started)

-- `broadcast_queue_state`
unfoldable pub broadcast_queue_state : Clock → ℕ → Action (Unit {0})
broadcast_queue_state c v = do
  items ← gets (λ t. get_active_items v t.host_rotation)
  online ← gets (is_kj_online c v)
  let playing =
      Option.map (playing_out c) (find (λ (r : HostRotation). is_now_playing r.status) items)
  let queue = select (λ (r : HostRotation). not (is_now_playing r.status)) items
  publish (host_queue_state v (out_items 0 queue) online)
  publish_playing v playing
  publish (
      host_stats v (length queue) (length queue * avg_song_seconds) playing
        (distinct_singers items))

abbrev pub start_row : ℕ → HostRotation → HostRotation
start_row now r = record r { status = now_playing; updated_at = some now }

abbrev pub start_next : Clock → ℕ → Option HostRotation → Action (Option HostRotation)
start_next c v none = pure none
start_next c v (some r) = do
  write_rows (has_id r.id) (start_row c.now)
  commit
  started ← reload r
  pure (some started)

abbrev pub advance : Clock → ℕ → Option HostRotation → Action (Option HostRotation)
advance c v none = gets (λ t. next_row v t.host_rotation) >>= start_next c v
advance c v (some r) = pure none

-- `_auto_advance`
unfoldable pub auto_advance : Clock → ℕ → Action (Option HostRotation)
auto_advance c v = gets (λ t. now_playing_row v t.host_rotation) >>= advance c v
