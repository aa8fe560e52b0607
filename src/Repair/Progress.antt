-- ===== src/Repair/Progress.antt =====
-- Runs of the repair sync's calls (app/services/repair_sync.py): what becomes of a job, and of the
-- singers.
use scales_infrastructure.Prelude.{
  ℕ, Bool, true, false, Option, none, some, List, [], ◌∷◌, every, arith,
}
use scales_infrastructure.Models.Tables.{Tables}
use scales_infrastructure.Models.Session.{Clock}
use scales_infrastructure.Repair.{Snapshot, Conflict}
use scales_infrastructure.Repair.Singers.{Texts}
use scales_infrastructure.Repair.Jobs.{
  Mode, client_wins_mode, prompt, Job, Server, get_job, find_by_idempotency, upsert_job, update_job,
  finish_job, settle_job, create_job, start_repair_sync, resolve_job, resolve_if,
  resolve_repair_sync, cancel_job, cancel_repair_sync, is_provided, let_client_win, existing_or,
  processing, needs, cleared,
}
use scales_infrastructure.Repair.Locked.{Managed, IsManaged, IsManaged-IsHarmless}
use scales_infrastructure.Repair.Locked.Playing.{apply_snapshot-Keeps}

-- The calls; `starts` has the uuid4 of the job.
pub data Call : Type 0 where
  starts : ℕ → ℕ → Mode → Snapshot → Option ℕ → Call
  resolves : ℕ → List Conflict → Call
  cancels : ℕ → Call

unfoldable pub perform : Clock → Texts → Call → Server → Server
unfolding start_repair_sync resolve_repair_sync cancel_repair_sync
perform c texts (starts sync v mode snapshot key) srv =
    (start_repair_sync c texts sync v mode snapshot key srv).1
perform c texts (resolves sync res) srv = (resolve_repair_sync c texts sync res srv).1
perform c texts (cancels sync) srv = (cancel_repair_sync c sync srv).1

unfoldable pub perform_all : Texts → List (Clock × Call) → Server → Server
unfolding perform
perform_all texts [] srv = srv
perform_all texts ((c, call) ∷ calls) srv = perform_all texts calls (perform c texts call srv)

-- An invariant of the tables, in the session and durably.
abbrev pub Both : (Tables → Type 0) → Server → Type 0
Both P srv = P srv.session.db × P srv.session.committed

module _ (k : ℕ) (x : Managed) (texts : Texts) where
  abbrev P : Server → Type 0
  P = Both (IsManaged k x)

  finish_job-Both :
      (c : Clock) (j : Job) (res : List Conflict) (srv : Server)
      → P srv
      → P (finish_job c texts j res srv).1
  unfolding finish_job update_job
  finish_job-Both c j res srv h =
      let (d, e) =
        (apply_snapshot-Keeps (IsManaged-IsHarmless k x) c texts j.venue_id j.snapshot res).run
          srv.session h.0 h.1 in
      (e, e)

  settle_job-Both :
      (c : Clock) (mode : Mode) (j : Job) (xs : List Conflict) (srv : Server)
      → P srv
      → P (settle_job c texts mode j xs srv).1
  unfolding settle_job update_job
  settle_job-Both c mode j [] srv h = finish_job-Both c (record j { step = some 4 }) [] srv h
  settle_job-Both c prompt j (y ∷ ys) srv h = (h.1, h.1)
  settle_job-Both c client_wins_mode j (y ∷ ys) srv h =
      finish_job-Both c (record j { step = some 4 }) (let_client_win (y ∷ ys)) srv h

  start-Both :
      (c : Clock) (sync v : ℕ) (mode : Mode) (snapshot : Snapshot) (key : Option ℕ) (srv : Server)
      → P srv
      → P (start_repair_sync c texts sync v mode snapshot key srv).1
  unfolding start_repair_sync create_job upsert_job
  start-Both c sync v mode snapshot key srv h = go (find_by_idempotency key srv)
    where
      go :
          (o : Option Job)
          → P (existing_or o srv (create_job c texts sync v mode snapshot key srv)).1
      go none = settle_job-Both c mode _ _ (upsert_job _ srv) h
      go (some j) = h

  resolve-Both :
      (c : Clock) (res : List Conflict) (o : Option Job) (srv : Server)
      → P srv
      → P (resolve_job c texts res o srv).1
  unfolding resolve_job
  resolve-Both c res none srv h = h
  resolve-Both c res (some j) srv h = go (needs j.status) (every (is_provided res) j.conflicts)
    where
      go :
          (a b : Bool)
          → P
              (resolve_if a b
                (cleared
                  (finish_job c texts (record j { status = processing; step = some 4 }) res srv))
                srv).1
      go false b = h
      go true false = h
      go true true = finish_job-Both c (record j { status = processing; step = some 4 }) res srv h

  cancel-Both : (now : ℕ) (o : Option Job) (srv : Server) → P srv → P (cancel_job now o srv).1
  unfolding cancel_job update_job
  cancel-Both now none srv h = h
  cancel-Both now (some j) srv h = ground (arith, h)

  perform-Both : (c : Clock) (call : Call) (srv : Server) → P srv → P (perform c texts call srv)
  unfolding perform
  perform-Both c (starts sync v mode snapshot key) srv h =
      start-Both c sync v mode snapshot key srv h
  perform-Both c (resolves sync res) srv h = resolve-Both c res (get_job sync srv) srv h
  perform-Both c (cancels sync) srv h = cancel-Both c.now (get_job sync srv) srv h

-- Of a singer who has a row, in the session and durably, the account, the points and the tier stay as
-- they are through every sequence of calls of the repair sync, failed jobs included.
pub perform_all-IsManaged :
    (k : ℕ) (x : Managed) (texts : Texts) (calls : List (Clock × Call)) (srv : Server)
    → Both (IsManaged k x) srv
    → Both (IsManaged k x) (perform_all texts calls srv)
unfolding perform_all
perform_all-IsManaged k x texts [] srv h = h
perform_all-IsManaged k x texts ((c, call) ∷ calls) srv h =
    perform_all-IsManaged k x texts calls (perform c texts call srv)
      (perform-Both k x texts c call srv h)
