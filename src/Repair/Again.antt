-- ===== src/Repair/Again.antt =====
-- A request of the repair sync that gives an idempotency key again (app/services/repair_sync.py,
-- `start_repair_sync`).
use scales_infrastructure.Prelude.{
  ℕ, ◌≡◌, refl, sym, ◌∙◌, ap, Bool, true, false, Option, none, some, List, [], ◌∷◌, find, every,
  Bool-cases, inl, inr, is_some, same, same→eq, arith,
}
use scales_infrastructure.Models.Session.{Clock}
use scales_infrastructure.Repair.{Snapshot, Conflict}
use scales_infrastructure.Repair.Singers.{Texts}
use scales_infrastructure.Repair.Jobs.{
  Mode, client_wins_mode, prompt, processing, Job, Server, has_sync_id, get_job, put_job,
  find_by_idempotency, upsert_job, update_job, finish_job, settle_job, create_job, existing_or,
  start_repair_sync, resolve_job, resolve_if, cleared, clear_conflicts, is_provided, needs,
  is_finished, cancel_job, cancel_if, cancelled_job, let_client_win, sync_id_of, new_job,
  waiting_job, stored_job, resolve_repair_sync, cancel_repair_sync,
}
use scales_infrastructure.Repair.Progress.{Call, starts, resolves, cancels, perform, perform_all}
use scales_infrastructure.Repair.Store.{find-put_job, finish_job-id, get_job-id}

-- What is stored is the job that the request was answered with.
module _ (c : Clock) (texts : Texts) where
  finish_job-stored :
      (j : Job) (res : List Conflict) (srv : Server)
      → get_job j.sync_id (finish_job c texts j res srv).1 ≡ some (finish_job c texts j res srv).0
  unfolding finish_job update_job get_job
  finish_job-stored j res srv =
      ap (λ n. find (has_sync_id n) (finish_job c texts j res srv).1.jobs)
        (sym (finish_job-id c texts j res srv))
      ∙ find-put_job (finish_job c texts j res srv).0 srv.jobs

  settle_job-stored :
      (mode : Mode) (j : Job) (xs : List Conflict) (srv : Server)
      → get_job j.sync_id (settle_job c texts mode j xs srv).1
        ≡ some (settle_job c texts mode j xs srv).0
  unfolding settle_job update_job get_job
  settle_job-stored mode j [] srv = finish_job-stored (record j { step = some 4 }) [] srv
  settle_job-stored prompt j (y ∷ ys) srv = find-put_job (waiting_job c.now (y ∷ ys) j) srv.jobs
  settle_job-stored client_wins_mode j (y ∷ ys) srv =
      finish_job-stored (record j { step = some 4 }) (let_client_win (y ∷ ys)) srv

  settle_job-map :
      (mode : Mode) (j : Job) (xs : List Conflict) (srv : Server)
      → (settle_job c texts mode j xs srv).1.idempotency_map ≡ srv.idempotency_map
  unfolding settle_job finish_job update_job
  settle_job-map mode j [] srv = refl
  settle_job-map prompt j (y ∷ ys) srv = refl
  settle_job-map client_wins_mode j (y ∷ ys) srv = refl

  create_job-found :
      (sync v : ℕ) (mode : Mode) (snapshot : Snapshot) (key : ℕ) (srv : Server)
      → find_by_idempotency (some key) (create_job c texts sync v mode snapshot (some key) srv).1
        ≡ some (create_job c texts sync v mode snapshot (some key) srv).0
  unfolding find_by_idempotency create_job upsert_job
  create_job-found sync v mode snapshot key srv =
      ap (λ m. stored_job (sync_id_of key m) made.1)
        (settle_job-map mode (new_job c.now sync v mode snapshot (some key)) _ (upsert_job _ srv))
      ∙ own_key made.1
      ∙ settle_job-stored mode (new_job c.now sync v mode snapshot (some key)) _ _
    where
      made : Job × Server
      made = create_job c texts sync v mode snapshot (some key) srv

      own_key :
          (s : Server)
          → stored_job (sync_id_of key ((key, sync) ∷ srv.idempotency_map)) s ≡ get_job sync s
      own_key s = ground arith

  start-found :
      (sync v : ℕ) (mode : Mode) (snapshot : Snapshot) (key : ℕ) (srv : Server)
      → find_by_idempotency
          (some key)
          (start_repair_sync c texts sync v mode snapshot (some key) srv).1
        ≡ some (start_repair_sync c texts sync v mode snapshot (some key) srv).0
  unfolding start_repair_sync
  start-found sync v mode snapshot key srv =
      go (find_by_idempotency (some key) srv) refl (create_job-found sync v mode snapshot key srv)
    where
      made : Job × Server
      made = create_job c texts sync v mode snapshot (some key) srv

      go :
          (o : Option Job)
          → find_by_idempotency (some key) srv ≡ o
          → find_by_idempotency (some key) made.1 ≡ some made.0
          → find_by_idempotency (some key) (existing_or o srv made).1
            ≡ some (existing_or o srv made).0
      go none e h = h
      go (some j) e h = e

-- The key stands for the job `k`, and there is such a job.
abbrev Knows : ℕ → ℕ → Server → Type 0
Knows key k srv = (sync_id_of key srv.idempotency_map ≡ some k) × (is_some (get_job k srv) ≡ true)

module _ (key k : ℕ) where
  put_job-some :
      (j : Job) (jobs : List Job)
      → is_some (find (has_sync_id k) jobs) ≡ true
      → is_some (find (has_sync_id k) (put_job j jobs)) ≡ true
  put_job-some j [] h = absurd (ground (arith, h))
  put_job-some j (i ∷ jobs) h = ground (arith, h, put_job-some j jobs)

  update_job-Knows : (j : Job) (srv : Server) → Knows key k srv → Knows key k (update_job j srv)
  unfolding update_job get_job
  update_job-Knows j srv h = (h.0, put_job-some j srv.jobs h.1)

  module _ (c : Clock) (texts : Texts) where
    finish_job-Knows :
        (j : Job) (res : List Conflict) (srv : Server)
        → Knows key k srv
        → Knows key k (finish_job c texts j res srv).1
    unfolding finish_job update_job get_job
    finish_job-Knows j res srv h = (h.0, put_job-some (finish_job c texts j res srv).0 srv.jobs h.1)

    settle_job-Knows :
        (mode : Mode) (j : Job) (xs : List Conflict) (srv : Server)
        → Knows key k srv
        → Knows key k (settle_job c texts mode j xs srv).1
    unfolding settle_job update_job get_job
    settle_job-Knows mode j [] srv h = finish_job-Knows (record j { step = some 4 }) [] srv h
    settle_job-Knows prompt j (y ∷ ys) srv h = (h.0, put_job-some _ srv.jobs h.1)
    settle_job-Knows client_wins_mode j (y ∷ ys) srv h =
        finish_job-Knows (record j { step = some 4 }) (let_client_win (y ∷ ys)) srv h

    -- A new job is remembered under another key, or under none.
    upsert_job-Knows :
        (j : Job) (srv : Server)
        → same j.idempotency_key (some key) ≡ false
        → Knows key k srv
        → Knows key k (upsert_job j srv)
    unfolding upsert_job get_job
    upsert_job-Knows j srv apart h =
        (remembered j.idempotency_key apart, put_job-some j srv.jobs h.1)
      where
        remembered :
            (o : Option ℕ)
            → same o (some key) ≡ false
            → sync_id_of key (elim o [
              | none ↦ srv.idempotency_map
              | some q ↦ (q, j.sync_id) ∷ srv.idempotency_map
            ])
              ≡ some k
        remembered none e = h.0
        remembered (some q) e = ground (arith, e, h.0)

    Knows-found :
        (srv : Server) → Knows key k srv → find_by_idempotency (some key) srv ≡ get_job k srv
    unfolding find_by_idempotency
    Knows-found srv h = rw (h.0) refl

    start-Knows :
        (sync v : ℕ) (mode : Mode) (snapshot : Snapshot) (q : Option ℕ) (srv : Server)
        → Knows key k srv
        → Knows key k (start_repair_sync c texts sync v mode snapshot q srv).1
    unfolding start_repair_sync create_job
    start-Knows sync v mode snapshot q srv h = go (find_by_idempotency q srv) refl
      where
        made : Job × Server
        made = create_job c texts sync v mode snapshot q srv

        go :
            (o : Option Job)
            → find_by_idempotency q srv ≡ o
            → Knows key k (existing_or o srv made).1
        go (some j) e = h
        go none e = elim (Bool-cases (same q (some key))) [
          | inl here ↦ absurd (
              ground (
                arith,
                ap is_some (
                    sym (Knows-found srv h)
                    ∙ ap (λ o. find_by_idempotency o srv) (sym (same→eq q (some key) here))
                    ∙ e),
                h.1,
              ))
          | inr apart ↦
              settle_job-Knows mode _ _ (upsert_job (new_job c.now sync v mode snapshot q) srv)
                (upsert_job-Knows (new_job c.now sync v mode snapshot q) srv apart h)
        ]

    resolve-Knows :
        (res : List Conflict) (o : Option Job) (srv : Server)
        → Knows key k srv
        → Knows key k (resolve_job c texts res o srv).1
    unfolding resolve_job get_job
    resolve-Knows res none srv h = h
    resolve-Knows res (some j) srv h = go (needs j.status) (every (is_provided res) j.conflicts)
      where
        waiting : Job
        waiting = record j { status = processing; step = some 4 }

        done : Job × Server
        done = finish_job c texts waiting res srv

        cleared-Knows : Knows key k (cleared done).1
        cleared-Knows =
            let g = finish_job-Knows waiting res srv h in
            (g.0, put_job-some (clear_conflicts done.0) done.1.jobs g.1)

        go : (a b : Bool) → Knows key k (resolve_if a b (cleared done) srv).1
        go false b = h
        go true false = h
        go true true = cleared-Knows

    cancel-Knows :
        (o : Option Job) (srv : Server) → Knows key k srv → Knows key k (cancel_job c.now o srv).1
    unfolding cancel_job cancel_if
    cancel-Knows none srv h = h
    cancel-Knows (some j) srv h = go (is_finished j.status)
      where
        go : (b : Bool) → Knows key k (cancel_if c.now b j srv).1
        go true = h
        go false = update_job-Knows (cancelled_job c.now j) srv h

    perform-Knows :
        (call : Call) (srv : Server) → Knows key k srv → Knows key k (perform c texts call srv)
    unfolding perform resolve_repair_sync cancel_repair_sync
    perform-Knows (starts sync v mode snapshot q) srv h = start-Knows sync v mode snapshot q srv h
    perform-Knows (resolves sync res) srv h = resolve-Knows res (get_job sync srv) srv h
    perform-Knows (cancels sync) srv h = cancel-Knows (get_job sync srv) srv h

  perform_all-Knows :
      (texts : Texts) (calls : List (Clock × Call)) (srv : Server)
      → Knows key k srv
      → Knows key k (perform_all texts calls srv)
  unfolding perform_all
  perform_all-Knows texts [] srv h = h
  perform_all-Knows texts ((c, call) ∷ calls) srv h =
      perform_all-Knows texts calls (perform c texts call srv) (perform-Knows c texts call srv h)

found-Knows :
    (c : Clock) (texts : Texts) (key : ℕ) (j : Job) (srv : Server)
    → find_by_idempotency (some key) srv ≡ some j
    → Knows key j.sync_id srv
unfolding find_by_idempotency stored_job
found-Knows c texts key j srv h = go (sync_id_of key srv.idempotency_map) refl h
  where
    go :
        (o : Option ℕ)
        → sync_id_of key srv.idempotency_map ≡ o
        → stored_job o srv ≡ some j
        → Knows key j.sync_id srv
    go none e g = absurd (ground (arith, g))
    go (some k) e g =
        let same_id : j.sync_id ≡ k = get_job-id c texts k k j srv g in
        (e ∙ ap some (sym same_id), ap (λ n. is_some (get_job n srv)) same_id ∙ ap is_some g)

-- A request that gives the idempotency key of an earlier one gets the job of the earlier one as it is
-- by then and changes nothing, whatever calls came in between, however late it comes, and whatever
-- else it asks, for the same venue or for another.
pub start_repair_sync_again :
    (c c' : Clock) (texts texts' : Texts) (sync sync' v v' : ℕ) (mode mode' : Mode)
    (snapshot snapshot' : Snapshot) (key : ℕ) (calls : List (Clock × Call)) (srv : Server)
    → let (first_job, srv') = start_repair_sync c texts sync v mode snapshot (some key) srv in
      let later : Server = perform_all texts calls srv' in
      let (again, after) = start_repair_sync c' texts' sync' v' mode' snapshot' (some key) later in
      (get_job first_job.sync_id later ≡ some again) × (after ≡ later)
unfolding start_repair_sync
start_repair_sync_again c c' texts texts' sync sync' v v' mode mode' snapshot snapshot' key calls
      srv =
    go (get_job k later) refl known.1
  where
    k : ℕ
    k = (start_repair_sync c texts sync v mode snapshot (some key) srv).0.sync_id

    later : Server
    later =
        perform_all texts calls (start_repair_sync c texts sync v mode snapshot (some key) srv).1

    known : Knows key k later
    known =
        perform_all-Knows key k texts calls _
          (found-Knows c texts key _ _ (start-found c texts sync v mode snapshot key srv))

    go :
        (o : Option Job)
        → get_job k later ≡ o
        → is_some o ≡ true
        → let (again, after) =
            start_repair_sync c' texts' sync' v' mode' snapshot' (some key) later in
          (get_job k later ≡ some again) × (after ≡ later)
    go none e h = absurd (ground (arith, h))
    go (some j) e h = rw (Knows-found key k c texts later known ∙ e) (e, refl)
