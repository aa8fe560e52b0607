-- ===== src/Repair/Durable.antt =====
-- What a repair sync makes durable (app/services/repair_sync.py): only `_apply_now_playing` commits.
use scales_infrastructure.Prelude.{ℕ, ◌≡◌, refl, false, Option, none, some, List, [], ◌∷◌, arith}
use scales_infrastructure.Models.Tables.{Tables}
use scales_infrastructure.Models.Session.{Clock, Session, Result, ok, err, Failure, ◌>>=◌}
use scales_infrastructure.Models.Session.Uncommitted.{
  Uncommitted, Uncommitted-pure, Uncommitted-bind, bind-err, bind-err_pure,
}
use scales_infrastructure.Repair.{NowPlayingSnapshot, Snapshot, Conflict}
use scales_infrastructure.Repair.Singers.{Texts}
use scales_infrastructure.Repair.Apply.{
  Summary, place_now_playing, apply_now_playing, apply_parts, apply_snapshot,
}
use scales_infrastructure.Repair.Jobs.{
  Mode, client_wins_mode, prompt, failed, Job, Server, find_by_idempotency, upsert_job, update_job,
  applied_job, finish_job, settle_job, create_job, existing_or, start_repair_sync, let_client_win,
}
use scales_infrastructure.Repair.Locked.{IsHarmless, apply_parts-Quiet}
use scales_infrastructure.Repair.Locked.Playing.{place_now_playing-Quiet}

abbrev Anything : Tables → Type 0
Anything t = Unit

anything : IsHarmless Anything
anything = record {
  writes = λ j f i r t h. tt;
  flushes = λ p t h. tt;
  requests = λ rows t h. tt;
  settings = λ rows t h. tt;
}

module _ (c : Clock) (texts : Texts) (v : ℕ) where
  apply_parts-committed :
      (snapshot : Snapshot) (res : List Conflict) (s : Session)
      → (apply_parts c texts v snapshot res s).1.committed ≡ s.committed
  apply_parts-committed snapshot res s =
      ((apply_parts-Quiet anything c texts v snapshot res).run s tt tt).1

  place-committed :
      (snap : NowPlayingSnapshot) (s : Session)
      → (place_now_playing c texts v snap s).1.committed ≡ s.committed
  place-committed snap s = ((place_now_playing-Quiet anything c texts v snap).run s tt tt).1

  now_playing-err :
      (snap : Option NowPlayingSnapshot) (e : Failure) (s : Session)
      → (apply_now_playing c texts v snap s).0 ≡ err e
      → (apply_now_playing c texts v snap s).1.committed ≡ s.committed
  unfolding apply_now_playing ◌>>=◌
  now_playing-err none e s h = refl
  now_playing-err (some snap) e s h =
      bind-err (place_now_playing c texts v snap) _ e s (place-committed snap s)
        (λ d s' g. absurd (ground (arith, g))) h

  snapshot-err :
      (snapshot : Snapshot) (res : List Conflict) (e : Failure) (s : Session)
      → (apply_snapshot c texts v snapshot res s).0 ≡ err e
      → (apply_snapshot c texts v snapshot res s).1.committed ≡ s.committed
  unfolding apply_snapshot
  snapshot-err snapshot res e s h =
      bind-err (apply_parts c texts v snapshot res) _ e s (apply_parts-committed snapshot res s)
        (λ n s' g.
          bind-err_pure (apply_now_playing c texts v snapshot.now_playing) _ e s'
            (λ d. now_playing-err snapshot.now_playing d s') g)
        h

  silent-Uncommitted :
      (o : Option NowPlayingSnapshot) → o ≡ none → Uncommitted (apply_now_playing c texts v o)
  unfolding apply_now_playing
  silent-Uncommitted none h = Uncommitted-pure false
  silent-Uncommitted (some snap) h = absurd (ground (arith, h))

  -- Without a singer or a track on stage nothing is committed.
  snapshot-silent :
      (snapshot : Snapshot) (res : List Conflict) (s : Session)
      → snapshot.now_playing ≡ none
      → (apply_snapshot c texts v snapshot res s).1.committed ≡ s.committed
  unfolding apply_snapshot
  snapshot-silent snapshot res s silent =
      (Uncommitted-bind (apply_parts c texts v snapshot res) _
          (record { run = apply_parts-committed snapshot res })
          (λ n.
            Uncommitted-bind _ _ (silent-Uncommitted snapshot.now_playing silent)
              (λ played. Uncommitted-pure _))).run
        s

module _ (c : Clock) (texts : Texts) where
  finish_job-silent :
      (j : Job) (res : List Conflict) (srv : Server)
      → j.snapshot.now_playing ≡ none
      → (finish_job c texts j res srv).1.session.committed ≡ srv.session.committed
  unfolding finish_job update_job
  finish_job-silent j res srv silent =
      snapshot-silent c texts j.venue_id j.snapshot res srv.session silent

  applied_job-failed :
      (j : Job) (r : Result Summary)
      → (applied_job c.now j r).status ≡ failed
      → (e : Failure) × (r ≡ err e)
  unfolding applied_job
  applied_job-failed j (ok summary) h = absurd (ground (arith, h))
  applied_job-failed j (err e) h = (e, refl)

  finish_job-failed :
      (j : Job) (res : List Conflict) (srv : Server)
      → (finish_job c texts j res srv).0.status ≡ failed
      → (finish_job c texts j res srv).1.session.committed ≡ srv.session.committed
  unfolding finish_job update_job
  finish_job-failed j res srv h =
      let (e, raised) = applied_job-failed j _ h in
      snapshot-err c texts j.venue_id j.snapshot res e srv.session raised

  settle_job-silent :
      (mode : Mode) (j : Job) (xs : List Conflict) (srv : Server)
      → j.snapshot.now_playing ≡ none
      → (settle_job c texts mode j xs srv).1.session.committed ≡ srv.session.committed
  unfolding settle_job update_job
  settle_job-silent mode j [] srv h = finish_job-silent (record j { step = some 4 }) [] srv h
  settle_job-silent prompt j (y ∷ ys) srv h = refl
  settle_job-silent client_wins_mode j (y ∷ ys) srv h =
      finish_job-silent (record j { step = some 4 }) (let_client_win (y ∷ ys)) srv h

  settle_job-failed :
      (mode : Mode) (j : Job) (xs : List Conflict) (srv : Server)
      → (settle_job c texts mode j xs srv).0.status ≡ failed
      → (settle_job c texts mode j xs srv).1.session.committed ≡ srv.session.committed
  unfolding settle_job update_job
  settle_job-failed mode j [] srv h = finish_job-failed (record j { step = some 4 }) [] srv h
  settle_job-failed prompt j (y ∷ ys) srv h = refl
  settle_job-failed client_wins_mode j (y ∷ ys) srv h =
      finish_job-failed (record j { step = some 4 }) (let_client_win (y ∷ ys)) srv h

-- A repair sync whose snapshot has no `now_playing` makes nothing durable, whatever it reports.
pub start_repair_sync-silent :
    (c : Clock) (texts : Texts) (sync v : ℕ) (mode : Mode) (snapshot : Snapshot) (key : Option ℕ)
    (srv : Server)
    → snapshot.now_playing ≡ none
    → (start_repair_sync c texts sync v mode snapshot key srv).1.session.committed
      ≡ srv.session.committed
unfolding start_repair_sync create_job upsert_job
start_repair_sync-silent c texts sync v mode snapshot key srv silent =
    go (find_by_idempotency key srv) (settle_job-silent c texts mode _ _ _ silent)
  where
    go :
        (o : Option Job)
        → (create_job c texts sync v mode snapshot key srv).1.session.committed
          ≡ srv.session.committed
        → (existing_or o srv (create_job c texts sync v mode snapshot key srv)).1.session.committed
          ≡ srv.session.committed
    go none h = h
    go (some j) h = refl

-- A repair sync that is answered with a failed job has made nothing durable.
pub start_repair_sync-failed :
    (c : Clock) (texts : Texts) (sync v : ℕ) (mode : Mode) (snapshot : Snapshot) (key : Option ℕ)
    (srv : Server)
    → (start_repair_sync c texts sync v mode snapshot key srv).0.status ≡ failed
    → (start_repair_sync c texts sync v mode snapshot key srv).1.session.committed
      ≡ srv.session.committed
unfolding start_repair_sync create_job upsert_job
start_repair_sync-failed c texts sync v mode snapshot key srv =
    go (find_by_idempotency key srv) (settle_job-failed c texts mode _ _ _)
  where
    made : Job × Server
    made = create_job c texts sync v mode snapshot key srv

    go :
        (o : Option Job)
        → (made.0.status ≡ failed → made.1.session.committed ≡ srv.session.committed)
        → (existing_or o srv made).0.status ≡ failed
        → (existing_or o srv made).1.session.committed ≡ srv.session.committed
    go none h e = h e
    go (some j) h e = refl
