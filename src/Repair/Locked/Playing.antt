-- ===== src/Repair/Locked/Playing.antt =====
-- What the server manages of a singer stays as it is where a snapshot says who plays
-- (app/services/repair_sync.py, `_apply_now_playing`, `_apply_snapshot`).
use scales_infrastructure.Prelude.{ℕ, Option, none, some, List}
use scales_infrastructure.Models.Tables.{QueueRequest, Tables}
use scales_infrastructure.Models.Session.{Clock}
use scales_infrastructure.Models.Session.Keeps.{
  Keeps, Keeps-pure, Keeps-bind, Keeps-Quiet, Keeps-commit, Keeps-best_effort, Quiet, Quiet-bind,
  Quiet-pure, Quiet-if, Quiet-modify, quiet_rules,
}
use scales_infrastructure.Queue.Broadcast.{
  broadcast_queue_state, broadcast_live, broadcast_offline, dedupe_now_playing,
}
use scales_infrastructure.Repair.{NowPlayingSnapshot, Snapshot, Conflict}
use scales_infrastructure.Repair.Singers.{Texts}
use scales_infrastructure.Repair.Apply.{
  demote, play_singer, play, place_now_playing, set_song, song_of_snapshot, announce,
  apply_now_playing, apply_snapshot,
}
use scales_infrastructure.Repair.Locked.{
  IsHarmless, flush-Quiet, resolve_or_create_song-Quiet, apply_parts-Quiet,
}

module _ {P : Tables → Type 0} (safe : IsHarmless P) where
  broadcast_live-Quiet : (c : Clock) (v : ℕ) → Quiet P (broadcast_live c v)
  unfolding broadcast_live dedupe_now_playing
  broadcast_live-Quiet c v =
      Quiet-bind _ _ (Quiet-modify _ (λ t h. safe.requests _ t h))
        (λ d. search quiet_rules depth 20)

  broadcast_queue_state-Quiet : (c : Clock) (v : ℕ) → Quiet P (broadcast_queue_state c v)
  unfolding broadcast_queue_state broadcast_offline
  broadcast_queue_state-Quiet c v = search (quiet_rules, broadcast_live-Quiet) depth 20

  set_song-Quiet : (j : ℕ) (song : Option ℕ) → Quiet P (set_song j song)
  unfolding set_song
  set_song-Quiet j none = search quiet_rules
  set_song-Quiet j (some song) =
      Quiet-bind _ _ (Quiet-modify _ (λ t h. safe.requests _ t h)) (λ d. flush-Quiet safe)

  song_of_snapshot-Quiet :
      (texts : Texts) (v : ℕ) (snap : NowPlayingSnapshot) (j : ℕ)
      → Quiet P (song_of_snapshot texts v snap j)
  unfolding song_of_snapshot
  song_of_snapshot-Quiet texts v snap j =
      search (quiet_rules, resolve_or_create_song-Quiet safe, set_song-Quiet) depth 20

  play_singer-Quiet :
      (c : Clock) (texts : Texts) (v : ℕ) (snap : NowPlayingSnapshot) (row : Option QueueRequest)
      → Quiet P (play_singer c texts v snap row)
  unfolding play_singer
  play_singer-Quiet c texts v snap none = search quiet_rules
  play_singer-Quiet c texts v snap (some r) =
      Quiet-bind _ _ (Quiet-modify _ (λ t h. safe.requests _ t h))
        (λ d. song_of_snapshot-Quiet texts v snap r.id)

  play-Quiet :
      (c : Clock) (texts : Texts) (v : ℕ) (snap : NowPlayingSnapshot) (singer : Option ℕ)
      → Quiet P (play c texts v snap singer)
  unfolding play
  play-Quiet c texts v snap none = search quiet_rules
  play-Quiet c texts v snap (some singer) = search (quiet_rules, play_singer-Quiet) depth 20

  demote-Quiet : (c : Clock) (v : ℕ) (snap : NowPlayingSnapshot) → Quiet P (demote c v snap)
  unfolding demote
  demote-Quiet c v snap =
      Quiet-if _ _ _ (Quiet-pure _) (Quiet-modify _ (λ t h. safe.requests _ t h))

  pub place_now_playing-Quiet :
      (c : Clock) (texts : Texts) (v : ℕ) (snap : NowPlayingSnapshot)
      → Quiet P (place_now_playing c texts v snap)
  unfolding place_now_playing
  place_now_playing-Quiet c texts v snap =
      Quiet-bind _ _ (demote-Quiet c v snap)
        (λ d. Quiet-bind _ _ (play-Quiet c texts v snap snap.singer_id) (λ e. flush-Quiet safe))

  pub announce-Quiet : (c : Clock) (v : ℕ) (snap : NowPlayingSnapshot) → Quiet P (announce c v snap)
  unfolding announce
  announce-Quiet c v snap = search (quiet_rules, broadcast_queue_state-Quiet) depth 20

  apply_now_playing-Keeps :
      (c : Clock) (texts : Texts) (v : ℕ) (snap : Option NowPlayingSnapshot)
      → Keeps P (apply_now_playing c texts v snap)
  unfolding apply_now_playing
  apply_now_playing-Keeps c texts v none = Keeps-pure _
  apply_now_playing-Keeps c texts v (some snap) =
      Keeps-bind _ _ (Keeps-Quiet _ (place_now_playing-Quiet c texts v snap)) (λ a.
        Keeps-bind _ _ Keeps-commit (λ b.
          Keeps-bind _ _ (Keeps-best_effort _ (Keeps-Quiet _ (announce-Quiet c v snap)))
            (λ d. Keeps-pure _)))

  pub apply_snapshot-Keeps :
      (c : Clock) (texts : Texts) (v : ℕ) (snapshot : Snapshot) (res : List Conflict)
      → Keeps P (apply_snapshot c texts v snapshot res)
  unfolding apply_snapshot
  apply_snapshot-Keeps c texts v snapshot res =
      Keeps-bind _ _ (Keeps-Quiet _ (apply_parts-Quiet safe c texts v snapshot res)) (λ n.
        Keeps-bind _ _ (apply_now_playing-Keeps c texts v snapshot.now_playing)
          (λ played. Keeps-pure _))
