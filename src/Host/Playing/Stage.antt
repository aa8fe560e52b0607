-- ===== src/Host/Playing/Stage.antt =====
-- Who is on stage after `set_now_playing` (app/core/host_rotation_service.py), and how durable
-- that is.
use scales_infrastructure.Prelude.{
  ℕ, ◌≤◌, ◌≡◌, refl, ap, sym, subst, ◌∙◌, Bool, true, false, ◌&&◌, Option, none, some, List, [],
  ◌∷◌, ◌++◌, map, count, count-imp, select, find, find-some→holds, get_or, update_where,
  Option-cases, inl, inr, arith,
}
use scales_infrastructure.Models.Tables.{HostRotation, Tables}
use scales_infrastructure.Models.Events.{HostEntry}
use scales_infrastructure.Models.Session.{Clock, Session, ◌>>=◌}
use scales_infrastructure.Models.Session.Uncommitted.{Uncommitted, uncommitted_rules}
use scales_infrastructure.Models.Session.Preserves.{Preserves, preserves_rules}
use scales_infrastructure.Host.Rows.{has_id, at_venue, item_at, marked_at, write_rows, reload}
use scales_infrastructure.Host.Snapshot.{demoted_row}
use scales_infrastructure.Host.Broadcast.{broadcast_queue_state, publish_playing}
use scales_infrastructure.Host.Playing.{
  announce_staged, Request, of_singer, row_of_singer, other_marked, staged_row, stage_row, stage,
  row_to_play, set_now_playing,
}

module _ {A : Type 0} where
  select_none : (q : A → Bool) (xs : List A) → count q xs ≡ 0 → select q xs ≡ []
  select_none q [] h = refl
  select_none q (x ∷ xs) h = ground (arith, select_none q xs)

  count-find :
      (p q : A → Bool) (xs : List A) (a : A) → find p xs ≡ some a → q a ≡ true → 1 ≤ count q xs
  count-find p q [] a found hit = absurd (ground arith)
  count-find p q (x ∷ xs) a found hit = ground (arith, count-find p q xs a)

  -- The one row that meets `q` is the row that a search finds, if that row meets `q`.
  select-find :
      (p q : A → Bool) (xs : List A) (a : A)
      → find p xs ≡ some a
      → q a ≡ true
      → count q xs ≤ 1
      → select q xs ≡ a ∷ []
  select-find p q [] a found hit once = absurd (ground arith)
  select-find p q (x ∷ xs) a found hit once =
      ground (arith, select_none q xs, select-find p q xs a, count-find p q xs a)

  select-append_one :
      (q : A → Bool) (xs : List A) (a : A)
      → count q xs ≡ 0
      → q a ≡ true
      → select q (xs ++ a ∷ []) ≡ a ∷ []
  select-append_one q [] a h hit = ground arith
  select-append_one q (x ∷ xs) a h hit = ground (arith, select-append_one q xs a)

  -- Two updates after which just the rows that the first leaves alone may meet `m`.
  select-update_both :
      (m other one at : A → Bool) (f g : A → A)
      → ((x : A) → one x ≡ true → (other x ≡ false) × (m (f x) ≡ at x))
      → ((x : A) → one x ≡ false → other x ≡ true → (one (g x) ≡ false) × (m (g x) ≡ false))
      → ((x : A) → one x ≡ false → other x ≡ false → m x ≡ false)
      → (xs : List A)
      → select m (update_where one f (update_where other g xs))
        ≡ map f (select (λ x. one x && at x) xs)
  select-update_both m other one at f g hit gone rest [] = refl
  select-update_both m other one at f g hit gone rest (x ∷ xs) =
      ground (arith, hit x, gone x, rest x, select-update_both m other one at f g hit gone rest xs)

abbrev row_at : ℕ → ℕ → HostRotation → Bool
row_at v rid r = has_id rid r && at_venue v r

-- The rows of the venue that are marked as playing after the two updates.
select-staged_rows :
    (now v rid : ℕ) (q : Request) (rows : List HostRotation)
    → select (marked_at v) (
        update_where
          (has_id rid)
          (staged_row now q)
          (update_where (other_marked v rid) (demoted_row now) rows))
      ≡ map (staged_row now q) (select (row_at v rid) rows)
select-staged_rows now v rid q =
    select-update_both (marked_at v) (other_marked v rid) (has_id rid) (at_venue v)
      (staged_row now q) (demoted_row now) (λ r h. (ground arith, ground arith))
      (λ r h k. (h, ground arith)) (λ r h k. ground arith)

module _ (v : ℕ) (rows : List HostRotation) where
  abbrev Rows : Tables → Type 0
  Rows t = t.host_rotation ≡ rows

  publish_playing-frame : (o : Option (HostEntry × ℕ)) → Preserves Rows (publish_playing v o)
  publish_playing-frame none = search preserves_rules
  publish_playing-frame (some e) = search preserves_rules

  broadcast-frame : (c : Clock) → Preserves Rows (broadcast_queue_state c v)
  unfolding broadcast_queue_state
  broadcast-frame c = search (preserves_rules, publish_playing-frame) depth 20

  announce_staged-frame : (c : Clock) (r : HostRotation) → Preserves Rows (announce_staged c v r)
  unfolding announce_staged reload
  announce_staged-frame c r = search (preserves_rules, broadcast-frame) depth 20

-- What `stage` makes of the table.
pub stage-rows :
    (c : Clock) (v : ℕ) (q : Request) (r : HostRotation) (s : Session)
    → (stage c v q (some r) s).1.db.host_rotation
      ≡ update_where
          (has_id r.id)
          (staged_row c.now q)
          (update_where (other_marked v r.id) (demoted_row c.now) s.db.host_rotation)
unfolding stage write_rows ◌>>=◌
stage-rows c v q r s = (announce_staged-frame v _ c r).run _ refl

pub stage-marked :
    (c : Clock) (v : ℕ) (q : Request) (r : HostRotation) (s : Session)
    → select (row_at v r.id) s.db.host_rotation ≡ r ∷ []
    → select (marked_at v) (stage c v q (some r) s).1.db.host_rotation ≡ staged_row c.now q r ∷ []
stage-marked c v q r s one =
    rw (stage-rows c v q r s)
      (select-staged_rows c.now v r.id q s.db.host_rotation ∙ ap (map (staged_row c.now q)) one)

-- A row of the venue that a search finds, whose key no other row has.
pub found_alone :
    (v : ℕ) (p : HostRotation → Bool) (rows : List HostRotation) (r : HostRotation)
    → ((x : HostRotation) → p x ≡ true → at_venue v x ≡ true)
    → find p rows ≡ some r
    → count (has_id r.id) rows ≤ 1
    → select (row_at v r.id) rows ≡ r ∷ []
found_alone v p rows r imp found once =
    select-find p (row_at v r.id) rows r found
      (ground (arith, imp r (find-some→holds p rows r found)))
      (omega (arith, count-imp (row_at v r.id) (has_id r.id) (λ x h. ground arith) rows, once))

-- An item that the venue has, given by its key, is alone on stage afterwards.
pub set_now_playing-by_key :
    (c : Clock) (v : ℕ) (uuid : List HostRotation → ℕ) (q : Request) (rid : ℕ) (r : HostRotation)
    (s : Session)
    → q.is_dj_track ≡ false
    → q.request_id ≡ some rid
    → find (item_at v rid) s.db.host_rotation ≡ some r
    → count (has_id rid) s.db.host_rotation ≤ 1
    → select (marked_at v) (set_now_playing c v uuid q s).1.db.host_rotation
      ≡ staged_row c.now q r ∷ []
unfolding set_now_playing row_to_play ◌>>=◌
set_now_playing-by_key c v uuid q rid r s no_dj by_key found once =
    let own : r.id ≡ rid =
      ground (arith, find-some→holds (item_at v rid) s.db.host_rotation r found) in
    let once' : count (has_id r.id) s.db.host_rotation ≤ 1 =
      subst (λ k. count (has_id k) s.db.host_rotation ≤ 1) (sym own) once in
    let alone =
      found_alone v (item_at v rid) s.db.host_rotation r (λ x h. ground arith) found once' in
    rw no_dj (rw by_key (rw found (stage-marked c v _ r s alone)))

-- A singer's item, or one that is made for them, is alone on stage afterwards.
pub set_now_playing-by_singer :
    (c : Clock) (v : ℕ) (uuid : List HostRotation → ℕ) (q : Request) (singer : ℕ) (s : Session)
    → q.is_dj_track ≡ false
    → q.request_id ≡ none
    → q.singer_id ≡ some singer
    → ((k : ℕ) → count (has_id k) s.db.host_rotation ≤ 1)
    → count (has_id (uuid s.db.host_rotation)) s.db.host_rotation ≡ 0
    → select (marked_at v) (set_now_playing c v uuid q s).1.db.host_rotation
      ≡ staged_row c.now q (
          get_or
            (find (of_singer v singer) s.db.host_rotation)
            (stage_row c.now v (uuid s.db.host_rotation) singer q))
        ∷ []
unfolding set_now_playing row_to_play ◌>>=◌
set_now_playing-by_singer c v uuid q singer s no_dj no_key by_singer once fresh =
    elim (Option-cases (find (of_singer v singer) s.db.host_rotation)) [
      | inl missing ↦ rw no_dj (
          rw no_key (
            rw by_singer (
              rw missing (
                stage-marked c v _ _ _ (
                  select-append_one _ s.db.host_rotation _
                    (omega (
                      arith,
                      fresh,
                      count-imp (row_at v (uuid s.db.host_rotation))
                          (has_id (uuid s.db.host_rotation)) (λ x h. ground arith)
                          s.db.host_rotation,
                    ))
                    (ground arith))))))
      | inr (r, found) ↦ rw no_dj (
          rw no_key (
            rw by_singer (
              rw found (
                stage-marked c v _ r s (
                  found_alone v (of_singer v singer) s.db.host_rotation r (λ x h. ground arith)
                    found (once r.id))))))
    ]

publish_playing-Uncommitted :
    (v : ℕ) (o : Option (HostEntry × ℕ)) → Uncommitted (publish_playing v o)
publish_playing-Uncommitted v none = search uncommitted_rules
publish_playing-Uncommitted v (some e) = search uncommitted_rules

pub broadcast-Uncommitted : (c : Clock) (v : ℕ) → Uncommitted (broadcast_queue_state c v)
unfolding broadcast_queue_state
broadcast-Uncommitted c v = search (uncommitted_rules, publish_playing-Uncommitted) depth 20

row_of_singer-Uncommitted :
    (c : Clock) (v : ℕ) (uuid : List HostRotation → ℕ) (singer : ℕ) (q : Request)
    (o : Option HostRotation)
    → Uncommitted (row_of_singer c v uuid singer q o)
row_of_singer-Uncommitted c v uuid singer q none = search uncommitted_rules depth 20
row_of_singer-Uncommitted c v uuid singer q (some r) = search uncommitted_rules

row_to_play-Uncommitted :
    (c : Clock) (v : ℕ) (uuid : List HostRotation → ℕ) (q : Request) (key singer : Option ℕ)
    → Uncommitted (row_to_play c v uuid q key singer)
unfolding row_to_play
row_to_play-Uncommitted c v uuid q (some rid) singer = search uncommitted_rules depth 20
row_to_play-Uncommitted c v uuid q none none = search uncommitted_rules
row_to_play-Uncommitted c v uuid q none (some singer) =
    search (uncommitted_rules, row_of_singer-Uncommitted) depth 20

stage-Uncommitted :
    (c : Clock) (v : ℕ) (q : Request) (o : Option HostRotation) → Uncommitted (stage c v q o)
unfolding stage announce_staged write_rows reload
stage-Uncommitted c v q none = search uncommitted_rules
stage-Uncommitted c v q (some r) = search (uncommitted_rules, broadcast-Uncommitted) depth 20

-- Whoever is put on stage, by this nothing is made durable.
pub set_now_playing-Uncommitted :
    (c : Clock) (v : ℕ) (uuid : List HostRotation → ℕ) (q : Request)
    → Uncommitted (set_now_playing c v uuid q)
unfolding set_now_playing
set_now_playing-Uncommitted c v uuid q =
    search (uncommitted_rules, row_to_play-Uncommitted, stage-Uncommitted) depth 20
