-- ===== src/Host/Sound.antt =====
-- The live rotation of app/core/host_rotation_service.py: its keys are unique, and at most one
-- item of the venue is on stage. The steps of the operations keep this.
pub mod Operations
use scales_infrastructure.Prelude.{
  ℕ, suc, ◌+◌, ◌≤◌, ◌≡◌, refl, sym, ◌∙◌, Bool, true, false, Option, none, some, List, [], ◌∷◌,
  length, length-select, length-sort, first, select, count, count-update_where_same,
  count-update_where_le, count-update_where_add, sort, arith,
}
use scales_infrastructure.Models.Tables.{HostRotation, Tables}
use scales_infrastructure.Models.Events.{HostEntry}
use scales_infrastructure.Models.Session.{Clock, Session, ◌>>=◌}
use scales_infrastructure.Models.Session.Preserves.{Preserves, preserves_rules}
use scales_infrastructure.Host.Rows.{
  has_id, playing_at, latest_first, now_playing_row, next_row, get_item, write_rows, reload,
}
use scales_infrastructure.Host.Broadcast.{
  broadcast_queue_state, publish_playing, start_row, start_next, advance, auto_advance,
}

pub record IsSound (v : ℕ) (t : Tables) : Type 0 where
  pub ids : (k : ℕ) → count (has_id k) t.host_rotation ≤ 1
  pub single : count (playing_at v) t.host_rotation ≤ 1

first-none : (rows : List HostRotation) → first rows ≡ none → length rows ≡ 0
first-none [] h = refl
first-none (r ∷ rows) h = absurd (ground arith)

now_playing_row-none :
    (v : ℕ) (rows : List HostRotation)
    → now_playing_row v rows ≡ none
    → count (playing_at v) rows ≡ 0
unfolding now_playing_row
now_playing_row-none v rows h =
    let playing = select (playing_at v) rows in
    sym (length-select (playing_at v) rows)
    ∙ sym (length-sort latest_first playing)
    ∙ first-none (sort latest_first playing) h

module _ (v : ℕ) where
  pub get_item-IsSound : (w rid : ℕ) → Preserves (IsSound v) (get_item w rid)
  unfolding get_item
  get_item-IsSound w rid = search preserves_rules

  pub reload-IsSound : (r : HostRotation) → Preserves (IsSound v) (reload r)
  unfolding reload
  reload-IsSound r = search preserves_rules

  -- A write that keeps the keys and puts nothing on stage.
  pub write_rows-IsSound :
      (p : HostRotation → Bool) (f : HostRotation → HostRotation)
      → ((r : HostRotation) → (f r).id ≡ r.id)
      → ((r : HostRotation) → playing_at v (f r) ≡ true → playing_at v r ≡ true)
      → Preserves (IsSound v) (write_rows p f)
  unfolding write_rows ◌>>=◌
  write_rows-IsSound p f same_id quiet = record {
    run = λ s h. record {
      ids = λ k.
          rw (count-update_where_same (has_id k) p f (λ r. rw (same_id r)) s.db.host_rotation)
            (h.ids k);
      single =
          omega
            (arith, count-update_where_le (playing_at v) p f quiet s.db.host_rotation, h.single);
    };
  }

  publish_playing-IsSound :
      (o : Option (HostEntry × ℕ)) → Preserves (IsSound v) (publish_playing v o)
  publish_playing-IsSound none = search preserves_rules
  publish_playing-IsSound (some e) = search preserves_rules

  pub broadcast_queue_state-IsSound :
      (c : Clock) → Preserves (IsSound v) (broadcast_queue_state c v)
  unfolding broadcast_queue_state
  broadcast_queue_state-IsSound c = search (preserves_rules, publish_playing-IsSound) depth 20

  start_next-IsSound :
      (c : Clock) (o : Option HostRotation) (s : Session)
      → count (playing_at v) s.db.host_rotation ≡ 0
      → IsSound v s.db
      → IsSound v (start_next c v o s).1.db
  unfolding write_rows reload ◌>>=◌
  start_next-IsSound c none s quiet h = h
  start_next-IsSound c (some r) s quiet h =
      let rows = s.db.host_rotation in
      record {
        ids = λ k.
            rw (count-update_where_same (has_id k) (has_id r.id) (start_row c.now) (λ q. refl) rows)
              (h.ids k);
        single = omega (
          arith,
          count-update_where_add (playing_at v) (has_id r.id) (start_row c.now) rows,
          h.ids r.id,
        );
      }

  advance-IsSound :
      (c : Clock) (o : Option HostRotation) (s : Session)
      → now_playing_row v s.db.host_rotation ≡ o
      → IsSound v s.db
      → IsSound v (advance c v o s).1.db
  unfolding ◌>>=◌
  advance-IsSound c (some r) s e h = h
  advance-IsSound c none s e h =
      start_next-IsSound c (next_row v s.db.host_rotation) s (now_playing_row-none v _ e) h

  -- It starts an item only where none is on stage.
  pub auto_advance-IsSound : (c : Clock) → Preserves (IsSound v) (auto_advance c v)
  unfolding auto_advance ◌>>=◌
  auto_advance-IsSound c = record {
    run = λ s h. advance-IsSound c (now_playing_row v s.db.host_rotation) s refl h;
  }
