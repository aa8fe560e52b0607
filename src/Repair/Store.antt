-- ===== src/Repair/Store.antt =====
-- The store of jobs of the repair sync (app/services/repair_sync.py): jobs that are finished.
use scales_infrastructure.Prelude.{
  ℕ, ◌≡◌, refl, sym, ◌∙◌, ap, Bool, true, false, not, Option, none, some, List, [], ◌∷◌, ◌==◌,
  ==_iff, find, find-some→holds, every, Bool-cases, inl, inr, arith,
}
use scales_infrastructure.Models.Session.{Clock}
use scales_infrastructure.Repair.{Snapshot, Conflict}
use scales_infrastructure.Repair.Singers.{Texts}
use scales_infrastructure.Repair.Jobs.{
  Mode, client_wins_mode, prompt, Status, processing, Job, Server, has_sync_id, get_job, put_job,
  find_by_idempotency, upsert_job, update_job, applied_job, finish_job, settle_job, create_job,
  existing_or, start_repair_sync, resolve_job, resolve_if, cleared, clear_conflicts, is_provided,
  needs, is_finished, cancel_job, cancel_if, cancelled_job, let_client_win, new_job,
}
use scales_infrastructure.Repair.Progress.{Call, starts, resolves, cancels, perform, perform_all}

pub find-put_job :
    (j : Job) (jobs : List Job) → find (has_sync_id j.sync_id) (put_job j jobs) ≡ some j
find-put_job j [] = ground arith
find-put_job j (i ∷ jobs) = elim (Bool-cases (has_sync_id j.sync_id i)) [
  | inl hit ↦ rw hit (ground arith)
  | inr miss ↦ rw miss (rw miss (find-put_job j jobs))
]

find-put_job_other :
    (k : ℕ) (j : Job) (jobs : List Job)
    → (j.sync_id == k) ≡ false
    → find (has_sync_id k) (put_job j jobs) ≡ find (has_sync_id k) jobs
find-put_job_other k j [] h = rw h refl
find-put_job_other k j (i ∷ jobs) h = elim (Bool-cases (has_sync_id j.sync_id i)) [
  | inl hit ↦ rw hit (rw (h, ap (λ n. n == k) (same_id hit) ∙ h) refl)
  | inr miss ↦ rw miss (elim (Bool-cases (has_sync_id k i)) [
    | inl e ↦ rw e refl
    | inr e ↦ rw e (find-put_job_other k j jobs h)
  ])
]
  where
    same_id : has_sync_id j.sync_id i ≡ true → i.sync_id ≡ j.sync_id
    same_id e = ground arith

module _ (c : Clock) (texts : Texts) where
  pub finish_job-id :
      (j : Job) (res : List Conflict) (srv : Server)
      → (finish_job c texts j res srv).0.sync_id ≡ j.sync_id
  unfolding finish_job applied_job
  finish_job-id j res srv = ground arith

  module _ (k : ℕ) where
    update_job-other :
        (j : Job) (srv : Server)
        → (j.sync_id == k) ≡ false
        → get_job k (update_job j srv) ≡ get_job k srv
    unfolding update_job get_job
    update_job-other j srv h = find-put_job_other k j srv.jobs h

    upsert_job-other :
        (j : Job) (srv : Server)
        → (j.sync_id == k) ≡ false
        → get_job k (upsert_job j srv) ≡ get_job k srv
    unfolding upsert_job get_job
    upsert_job-other j srv h = find-put_job_other k j srv.jobs h

    finish_job-other :
        (j : Job) (res : List Conflict) (srv : Server)
        → (j.sync_id == k) ≡ false
        → get_job k (finish_job c texts j res srv).1 ≡ get_job k srv
    unfolding finish_job update_job get_job
    finish_job-other j res srv h =
        find-put_job_other k (finish_job c texts j res srv).0 srv.jobs
          (ap (λ n. n == k) (finish_job-id j res srv) ∙ h)

    settle_job-other :
        (mode : Mode) (j : Job) (xs : List Conflict) (srv : Server)
        → (j.sync_id == k) ≡ false
        → get_job k (settle_job c texts mode j xs srv).1 ≡ get_job k srv
    unfolding settle_job update_job get_job
    settle_job-other mode j [] srv h = finish_job-other (record j { step = some 4 }) [] srv h
    settle_job-other prompt j (y ∷ ys) srv h = find-put_job_other k _ srv.jobs h
    settle_job-other client_wins_mode j (y ∷ ys) srv h =
        finish_job-other (record j { step = some 4 }) (let_client_win (y ∷ ys)) srv h

    start-other :
        (sync v : ℕ) (mode : Mode) (snapshot : Snapshot) (key : Option ℕ) (srv : Server)
        → (sync == k) ≡ false
        → get_job k (start_repair_sync c texts sync v mode snapshot key srv).1 ≡ get_job k srv
    unfolding start_repair_sync create_job upsert_job
    start-other sync v mode snapshot key srv h = go (find_by_idempotency key srv) (
        settle_job-other mode _ _ (upsert_job _ srv) h
        ∙ upsert_job-other (new_job c.now sync v mode snapshot key) srv h)
      where
        made : Job × Server
        made = create_job c texts sync v mode snapshot key srv

        go :
            (o : Option Job)
            → get_job k made.1 ≡ get_job k srv
            → get_job k (existing_or o srv made).1 ≡ get_job k srv
        go none e = e
        go (some j) e = refl

    cleared-other :
        (j : Job) (srv : Server)
        → (j.sync_id == k) ≡ false
        → get_job k (cleared (j, srv)).1 ≡ get_job k srv
    unfolding get_job
    cleared-other j srv h =
        find-put_job_other k (clear_conflicts j) srv.jobs (ap (λ n. n == k) same_id ∙ h)
      where
        same_id : (clear_conflicts j).sync_id ≡ j.sync_id
        same_id = ground arith

    finished-refused : (t : Status) → is_finished t ≡ true → needs t ≡ false
    finished-refused t h = ground arith

    pub get_job-id :
        (sync : ℕ) (j : Job) (srv : Server) → get_job sync srv ≡ some j → j.sync_id ≡ sync
    unfolding get_job
    get_job-id sync j srv h =
        (==_iff j.sync_id sync).0 (find-some→holds (has_sync_id sync) srv.jobs j h)

    -- The job under the key is the finished one.
    finished-here :
        (sync : ℕ) (i j : Job) (srv : Server)
        → get_job k srv ≡ some i
        → is_finished i.status ≡ true
        → get_job sync srv ≡ some j
        → (j.sync_id == k) ≡ true
        → is_finished j.status ≡ true
    finished-here sync i j srv h fin e here = ground (arith, q, fin)
      where
        q : some j ≡ some i
        q =
            sym e
            ∙ ap (λ n. get_job n srv) (sym (get_job-id sync j srv e) ∙ (==_iff j.sync_id k).0 here)
            ∙ h

    -- A job that is finished is refused, and the others leave it alone.
    resolve-other :
        (sync : ℕ) (res : List Conflict) (i : Job) (srv : Server)
        → get_job k srv ≡ some i
        → is_finished i.status ≡ true
        → (o : Option Job) → get_job sync srv ≡ o
        → get_job k (resolve_job c texts res o srv).1 ≡ get_job k srv
    unfolding resolve_job
    resolve-other sync res i srv h fin none e = refl
    resolve-other sync res i srv h fin (some j) e = elim (Bool-cases (j.sync_id == k)) [
      | inl here ↦ rw (finished-refused j.status (finished-here sync i j srv h fin e here)) refl
      | inr other ↦ go other (needs j.status) (every (is_provided res) j.conflicts)
    ]
      where
        waiting : Job
        waiting = record j { status = processing; step = some 4 }

        done : Job × Server
        done = finish_job c texts waiting res srv

        go :
            (j.sync_id == k) ≡ false
            → (a b : Bool) → get_job k (resolve_if a b (cleared done) srv).1 ≡ get_job k srv
        go other false b = refl
        go other true false = refl
        go other true true =
            cleared-other done.0 done.1 (ap (λ n. n == k) (finish_job-id waiting res srv) ∙ other)
            ∙ finish_job-other waiting res srv other

    cancel-other :
        (sync : ℕ) (i : Job) (srv : Server)
        → get_job k srv ≡ some i
        → is_finished i.status ≡ true
        → (o : Option Job) → get_job sync srv ≡ o
        → get_job k (cancel_job c.now o srv).1 ≡ get_job k srv
    unfolding cancel_job
    cancel-other sync i srv h fin none e = refl
    cancel-other sync i srv h fin (some j) e = elim (Bool-cases (j.sync_id == k)) [
      | inl here ↦ rw (finished-here sync i j srv h fin e here, cancel_if) refl
      | inr other ↦ go other (is_finished j.status)
    ]
      where
        go :
            (j.sync_id == k) ≡ false
            → (b : Bool) → get_job k (cancel_if c.now b j srv).1 ≡ get_job k srv
        go other true = refl
        go other false = update_job-other (cancelled_job c.now j) srv other

-- A call that makes no job with the key `k`.
abbrev pub avoids : ℕ → Call → Bool
avoids k (starts sync v mode snapshot key) = not (sync == k)
avoids k _ = true

perform-other :
    (c : Clock) (texts : Texts) (k : ℕ) (call : Call) (i : Job) (srv : Server)
    → avoids k call ≡ true
    → get_job k srv ≡ some i
    → is_finished i.status ≡ true
    → get_job k (perform c texts call srv) ≡ get_job k srv
unfolding perform
perform-other c texts k (starts sync v mode snapshot key) i srv a h fin =
    start-other c texts k sync v mode snapshot key srv (ground (arith, a))
perform-other c texts k (resolves sync res) i srv a h fin =
    resolve-other c texts k sync res i srv h fin (get_job sync srv) refl
perform-other c texts k (cancels sync) i srv a h fin =
    cancel-other c texts k sync i srv h fin (get_job sync srv) refl

-- A job that is completed, failed or cancelled stays as it is through every sequence of calls of the
-- repair sync in which no new job gets its key.
pub perform_all-finished :
    (texts : Texts) (k : ℕ) (i : Job) (calls : List (Clock × Call)) (srv : Server)
    → every (λ (p : Clock × Call). avoids k p.1) calls ≡ true
    → get_job k srv ≡ some i
    → is_finished i.status ≡ true
    → get_job k (perform_all texts calls srv) ≡ some i
unfolding perform_all
perform_all-finished texts k i [] srv a h fin = h
perform_all-finished texts k i ((c, call) ∷ calls) srv a h fin =
    perform_all-finished texts k i calls (perform c texts call srv) (ground (arith, a))
      (perform-other c texts k call i srv (ground (arith, a)) h fin ∙ h) fin
