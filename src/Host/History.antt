-- ===== src/Host/History.antt =====
-- Any sequence of the operations of app/core/host_rotation_service.py on one venue's live
-- rotation.
use scales_infrastructure.Prelude.{
  ℕ, ◌≤◌, ◌≡◌, refl, ◌∙◌, ap, sym, false, Option, none, some, List, [], ◌∷◌, ◌++◌, inl, inr,
  Bool-cases, Option-cases, length, length-select, count, count-append, count-imp, select, find,
  count-update_where_same, arith,
}
use scales_infrastructure.Models.Tables.{HostRotation, Tables}
use scales_infrastructure.Models.Session.{Clock, Session, Action, pure, ◌>>=◌, ◌>>◌}
use scales_infrastructure.Models.Session.Preserves.{Preserves, Preserves-bind, Preserves-pure}
use scales_infrastructure.Host.Rows.{has_id, marked_at, playing_at, item_at}
use scales_infrastructure.Host.Broadcast.{broadcast_queue_state}
use scales_infrastructure.Host.Snapshot.{demoted_row}
use scales_infrastructure.Host.Playing.{
  Request, of_singer, other_marked, staged_row, stage_row, stage, row_to_play, set_now_playing,
}
use scales_infrastructure.Host.Playing.Stage.{
  stage-rows, set_now_playing-by_key, set_now_playing-by_singer,
}
use scales_infrastructure.Host.Actions.{
  complete, skip, skip_to_end, remove, reorder, reorder_by_singer, remove_singer,
}
use scales_infrastructure.Host.Sound.{IsSound, broadcast_queue_state-IsSound}
use scales_infrastructure.Host.Sound.Operations.{
  complete-IsSound, skip-IsSound, skip_to_end-IsSound, remove-IsSound, reorder-IsSound,
  reorder_by_singer-IsSound, remove_singer-IsSound,
}

-- `uuid4`: a key that no row has.
abbrev pub IsFresh : (List HostRotation → ℕ) → Type 0
IsFresh uuid = (rows : List HostRotation) → count (has_id (uuid rows)) rows ≡ 0

-- One row on stage, and the keys of the others as they were.
IsSound-alone :
    (v : ℕ) (t : Tables) (r : HostRotation)
    → ((k : ℕ) → count (has_id k) t.host_rotation ≤ 1)
    → select (marked_at v) t.host_rotation ≡ r ∷ []
    → IsSound v t
IsSound-alone v t r once alone = record {
  ids = once;
  single = omega (
    arith,
    count-imp (playing_at v) (marked_at v) (λ q h. ground arith) t.host_rotation,
    sym (length-select (marked_at v) t.host_rotation) ∙ ap length alone,
  );
}

stage-ids :
    (c : Clock) (v : ℕ) (q : Request) (r : HostRotation) (s : Session) (k : ℕ)
    → count (has_id k) (stage c v q (some r) s).1.db.host_rotation
      ≡ count (has_id k) s.db.host_rotation
stage-ids c v q r s k =
    ap (count (has_id k)) (stage-rows c v q r s)
    ∙ count-update_where_same (has_id k) (has_id r.id) (staged_row c.now q) (λ x. refl) _
    ∙ count-update_where_same (has_id k) (other_marked v r.id) (demoted_row c.now) (λ x. refl) _

module _ (c : Clock) (v : ℕ) (uuid : List HostRotation → ℕ) (fresh : IsFresh uuid) where
  appended-ids :
      (q : Request) (singer : ℕ) (rows : List HostRotation)
      → ((k : ℕ) → count (has_id k) rows ≤ 1)
      → (k : ℕ) → count (has_id k) (rows ++ stage_row c.now v (uuid rows) singer q ∷ []) ≤ 1
  appended-ids q singer rows once k = ground (
    arith,
    count-append (has_id k) rows (stage_row c.now v (uuid rows) singer q ∷ []),
    once k,
    ap (λ n. count (has_id n) rows),
    fresh rows,
  )

  by_key-IsSound :
      (q : Request) (rid : ℕ) (s : Session)
      → q.is_dj_track ≡ false
      → q.request_id ≡ some rid
      → IsSound v s.db
      → IsSound v (set_now_playing c v uuid q s).1.db
  unfolding set_now_playing row_to_play ◌>>=◌
  by_key-IsSound q rid s no_dj key h =
      elim (Option-cases (find (item_at v rid) s.db.host_rotation)) [
        | inl missing ↦ rw no_dj (rw key (rw missing h))
        | inr (r, found) ↦
            let ids : (k : ℕ)
                → count (has_id k) (set_now_playing c v uuid q s).1.db.host_rotation ≤ 1 =
              (λ k. rw no_dj (rw key (rw found (rw (stage-ids c v _ r s k) (h.ids k))))) in
            IsSound-alone v _ (staged_row c.now q r) ids
              (set_now_playing-by_key c v uuid q rid r s no_dj key found (h.ids rid))
      ]

  by_singer-ids :
      (q : Request) (singer : ℕ) (s : Session)
      → q.is_dj_track ≡ false
      → q.request_id ≡ none
      → q.singer_id ≡ some singer
      → ((k : ℕ) → count (has_id k) s.db.host_rotation ≤ 1)
      → (k : ℕ) → count (has_id k) (set_now_playing c v uuid q s).1.db.host_rotation ≤ 1
  unfolding set_now_playing row_to_play ◌>>=◌
  by_singer-ids q singer s no_dj no_key by_singer once k =
      elim (Option-cases (find (of_singer v singer) s.db.host_rotation)) [
        | inl missing ↦ rw no_dj (
            rw no_key (
              rw by_singer (
                rw missing
                  (rw (stage-ids c v _ _ _ k) (appended-ids q singer s.db.host_rotation once k)))))
        | inr (r, found) ↦
            rw no_dj (rw no_key (rw by_singer (rw found (rw (stage-ids c v _ r s k) (once k)))))
      ]

  set_now_playing-IsSound : (q : Request) → Preserves (IsSound v) (set_now_playing c v uuid q)
  unfolding set_now_playing row_to_play stage ◌>>=◌
  set_now_playing-IsSound q = record {
    run = λ s h. elim (Bool-cases q.is_dj_track) [
      | inl dj ↦ rw dj h
      | inr no_dj ↦ elim (Option-cases q.request_id) [
        | inr (rid, key) ↦ by_key-IsSound q rid s no_dj key h
        | inl no_key ↦ elim (Option-cases q.singer_id) [
          | inl nobody ↦ rw no_dj (rw no_key (rw nobody h))
          | inr (singer, by_singer) ↦
              IsSound-alone v _ _ (by_singer-ids q singer s no_dj no_key by_singer h.ids) (
                set_now_playing-by_singer c v uuid q singer s no_dj no_key by_singer h.ids
                  (fresh s.db.host_rotation))
        ]
      ]
    ];
  }

-- A call of a public method, with its arguments.
pub data Call : Type 0 where
  complete_call skip_call skip_to_end_call remove_call : ℕ → Call
  reorder_call reorder_by_singer_call : List ℕ → Call
  remove_singer_call : ℕ → Option ℕ → Option ℕ → Call
  set_now_playing_call : Request → Call
  broadcast_call : Call

abbrev ignore : {A : Type 0} → Action A → Action (Unit {0})
ignore m = m >> pure tt

pub perform : Clock → ℕ → (List HostRotation → ℕ) → Call → Action (Unit {0})
perform c v uuid (complete_call rid) = ignore (complete c v rid)
perform c v uuid (skip_call rid) = ignore (skip c v rid)
perform c v uuid (skip_to_end_call rid) = ignore (skip_to_end c v rid)
perform c v uuid (remove_call rid) = remove c v rid
perform c v uuid (reorder_call ids) = ignore (reorder c v ids)
perform c v uuid (reorder_by_singer_call sids) = ignore (reorder_by_singer c v sids)
perform c v uuid (remove_singer_call singer account device) =
    ignore (remove_singer c v singer account device)
perform c v uuid (set_now_playing_call q) = ignore (set_now_playing c v uuid q)
perform c v uuid broadcast_call = broadcast_queue_state c v

-- Calls one after another, each with its own reading of the clock; an exception ends the call.
pub perform_all : ℕ → (List HostRotation → ℕ) → List (Clock × Call) → Session → Session
perform_all v uuid [] s = s
perform_all v uuid ((c, call) ∷ calls) s = perform_all v uuid calls (perform c v uuid call s).1

ignore-IsSound :
    {A : Type 0} (v : ℕ) (m : Action A) → Preserves (IsSound v) m → Preserves (IsSound v) (ignore m)
ignore-IsSound v m k = Preserves-bind m (λ _. pure tt) k (λ a. Preserves-pure tt)

perform-IsSound :
    (c : Clock) (v : ℕ) (uuid : List HostRotation → ℕ) (fresh : IsFresh uuid) (call : Call)
    → Preserves (IsSound v) (perform c v uuid call)
unfolding perform
perform-IsSound c v uuid fresh (complete_call rid) = ignore-IsSound v _ (complete-IsSound v c rid)
perform-IsSound c v uuid fresh (skip_call rid) = ignore-IsSound v _ (skip-IsSound v c rid)
perform-IsSound c v uuid fresh (skip_to_end_call rid) =
    ignore-IsSound v _ (skip_to_end-IsSound v c rid)
perform-IsSound c v uuid fresh (remove_call rid) = remove-IsSound v c rid
perform-IsSound c v uuid fresh (reorder_call ids) = ignore-IsSound v _ (reorder-IsSound v c ids)
perform-IsSound c v uuid fresh (reorder_by_singer_call sids) =
    ignore-IsSound v _ (reorder_by_singer-IsSound v c sids)
perform-IsSound c v uuid fresh (remove_singer_call singer account device) =
    ignore-IsSound v _ (remove_singer-IsSound v c singer account device)
perform-IsSound c v uuid fresh (set_now_playing_call q) =
    ignore-IsSound v _ (set_now_playing-IsSound c v uuid fresh q)
perform-IsSound c v uuid fresh broadcast_call = broadcast_queue_state-IsSound v c

-- Where `uuid` gives keys that no row has: from a rotation with unique keys and at most one item
-- of the venue on stage, every sequence of calls, failed ones included, leads to such a rotation.
pub stage_all-IsSound :
    (v : ℕ) (uuid : List HostRotation → ℕ) (calls : List (Clock × Call)) (s : Session)
    → IsFresh uuid
    → IsSound v s.db
    → IsSound v (perform_all v uuid calls s).db
unfolding perform_all
stage_all-IsSound v uuid [] s fresh h = h
stage_all-IsSound v uuid ((c, call) ∷ calls) s fresh h =
    stage_all-IsSound v uuid calls (perform c v uuid call s).1 fresh
      ((perform-IsSound c v uuid fresh call).run s h)
