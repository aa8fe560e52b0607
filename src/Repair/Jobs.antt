-- ===== src/Repair/Jobs.antt =====
-- The jobs of the repair sync (app/services/repair_sync.py: the job store, `start_repair_sync`,
-- `resolve_repair_sync`, `cancel_repair_sync`). A request works on a session of its own, which get_db
-- closes: what the job did not commit is gone.
use scales_infrastructure.Prelude.{
  ℕ, Bool, true, false, ◌&&◌, Option, none, some, List, [], ◌∷◌, ◌==◌, any_of, every, find,
  if◌then◌else◌,
}
use scales_infrastructure.Models.Session.{Clock, empty, Session, Failure, Result, ok, err}
use scales_infrastructure.Repair.{Snapshot, client_wins, Conflict, same_entity}
use scales_infrastructure.Repair.Detect.{detect_conflicts}
use scales_infrastructure.Repair.Singers.{Texts}
use scales_infrastructure.Repair.Apply.{Summary, apply_snapshot}

-- RepairSyncMode
pub data Mode : Type 0 where
  client_wins_mode prompt : Mode

-- RepairSyncStatus
pub data Status : Type 0 where
  accepted processing needs_resolution completed failed cancelled : Status

-- _RepairSyncJob; `step` is the index of the label that the progress shows.
pub record Job : Type 0 where
  pub sync_id : ℕ
  pub venue_id : ℕ
  pub mode : Mode
  pub snapshot : Snapshot
  pub status : Status
  pub step : Option ℕ
  pub summary : Option Summary
  pub conflicts : List Conflict
  pub error : Option Failure
  pub created_at : ℕ
  pub updated_at : ℕ
  pub idempotency_key : Option ℕ

-- `_jobs` and `_idempotency_map`, and the session of the request.
pub record Server : Type 0 where
  pub jobs : List Job
  pub idempotency_map : List (ℕ × ℕ)
  pub session : Session

abbrev pub has_sync_id : ℕ → Job → Bool
has_sync_id k j = j.sync_id == k

-- `_jobs.get(sync_id)`
unfoldable pub get_job : ℕ → Server → Option Job
get_job k srv = find (has_sync_id k) srv.jobs

abbrev pub put_job : Job → List Job → List Job
put_job j [] = j ∷ []
put_job j (i ∷ is) = let rest = put_job j is in if has_sync_id j.sync_id i then j ∷ is else i ∷ rest

abbrev pub sync_id_of : ℕ → List (ℕ × ℕ) → Option ℕ
sync_id_of key [] = none
sync_id_of key ((k, sync) ∷ ks) = if k == key then some sync else sync_id_of key ks

unfoldable pub stored_job : Option ℕ → Server → Option Job
unfolding get_job
stored_job none srv = none
stored_job (some sync) srv = get_job sync srv

-- `_find_by_idempotency`: the map holds no venue. The key is that of the request, none if it has none.
unfoldable pub find_by_idempotency : Option ℕ → Server → Option Job
unfolding stored_job
find_by_idempotency none srv = none
find_by_idempotency (some key) srv = stored_job (sync_id_of key srv.idempotency_map) srv

abbrev remember : Job → List (ℕ × ℕ) → List (ℕ × ℕ)
remember j ks = elim j.idempotency_key [ none ↦ ks | some key ↦ (key, j.sync_id) ∷ ks ]

-- `_upsert_job`; a later entry of the map stands before an earlier one.
unfoldable pub upsert_job : Job → Server → Server
upsert_job j srv = record srv {
  jobs = put_job j srv.jobs;
  idempotency_map = remember j srv.idempotency_map;
}

-- `_update_job`
unfoldable pub update_job : Job → Server → Server
update_job j srv = record srv { jobs = put_job j srv.jobs }

-- The end of the request: what is not committed is taken back.
abbrev pub end_request : Session → Session
end_request s = record s { db = s.committed; pending = empty }

abbrev pub with_session : Session → Server → Server
with_session s srv = record srv { session = end_request s }

abbrev pub completed_job : ℕ → Summary → Job → Job
completed_job now summary j = record j {
  status = completed;
  step = some 5;
  summary = some summary;
  updated_at = now;
}

abbrev pub failed_job : ℕ → Failure → Job → Job
failed_job now e j = record j { status = failed; error = some e; updated_at = now }

-- What the `try` leaves of a job whose snapshot is applied.
unfoldable pub applied_job : ℕ → Job → Result Summary → Job
applied_job now j (ok summary) = completed_job now summary j
applied_job now j (err e) = failed_job now e j

-- `_apply_snapshot` for a job, to the end of the request.
unfoldable pub finish_job : Clock → Texts → Job → List Conflict → Server → Job × Server
unfolding applied_job update_job apply_snapshot
finish_job c texts j res srv =
    let (r, s) = apply_snapshot c texts j.venue_id j.snapshot res srv.session in
    let j' = applied_job c.now j r in (j', update_job j' (with_session s srv))

abbrev pub new_job : ℕ → ℕ → ℕ → Mode → Snapshot → Option ℕ → Job
new_job now sync v mode snapshot key = record {
  sync_id = sync;
  venue_id = v;
  mode = mode;
  snapshot = snapshot;
  status = processing;
  step = some 0;
  summary = none;
  conflicts = [];
  error = none;
  created_at = now;
  updated_at = now;
  idempotency_key = key;
}

abbrev pub let_client_win : List Conflict → List Conflict
let_client_win [] = []
let_client_win (x ∷ xs) = record x { resolution = client_wins } ∷ let_client_win xs

abbrev pub waiting_job : ℕ → List Conflict → Job → Job
waiting_job now conflicts j = record j {
  status = needs_resolution;
  step = some 4;
  conflicts = conflicts;
  updated_at = now;
}

-- The part of `start_repair_sync` after the conflicts are known. A mode other than `prompt` lets the
-- client win them all.
unfoldable pub settle_job : Clock → Texts → Mode → Job → List Conflict → Server → Job × Server
unfolding finish_job update_job
settle_job c texts mode j [] srv = finish_job c texts (record j { step = some 4 }) [] srv
settle_job c texts prompt j (x ∷ xs) srv =
    let j' = waiting_job c.now (x ∷ xs) j in (j', update_job j' (with_session srv.session srv))
settle_job c texts client_wins_mode j (x ∷ xs) srv =
    finish_job c texts (record j { step = some 4 }) (let_client_win (x ∷ xs)) srv

-- A job that is new; `sync` is its uuid4.
unfoldable pub create_job :
    Clock → Texts → ℕ → ℕ → Mode → Snapshot → Option ℕ → Server → Job × Server
unfolding upsert_job settle_job detect_conflicts
create_job c texts sync v mode snapshot key srv =
    let j = new_job c.now sync v mode snapshot key in
    settle_job c texts mode j (detect_conflicts v snapshot srv.session.db) (upsert_job j srv)

abbrev pub existing_or : Option Job → Server → Job × Server → Job × Server
existing_or (some j) srv created = (j, srv)
existing_or none srv created = created

-- `start_repair_sync`
unfoldable pub start_repair_sync :
    Clock → Texts → ℕ → ℕ → Mode → Snapshot → Option ℕ → Server → Job × Server
unfolding find_by_idempotency create_job
start_repair_sync c texts sync v mode snapshot key srv =
    existing_or (find_by_idempotency key srv) srv (create_job c texts sync v mode snapshot key srv)

-- The ValueErrors of `resolve_repair_sync`.
pub data Refusal : Type 0 where
  not_found unexpected_status unresolved_conflicts : Refusal

pub data Answer : Type 0 where
  refused : Refusal → Answer
  answered : Job → Answer

abbrev pub is_provided : List Conflict → Conflict → Bool
is_provided res x =
    any_of
      (λ (r : Conflict). same_entity r.entity_type x.entity_type && (r.entity_id == x.entity_id))
      res

abbrev pub needs : Status → Bool
needs needs_resolution = true
needs _ = false

abbrev pub clear_conflicts : Job → Job
clear_conflicts j = elim j.status [ completed ↦ record j { conflicts = [] } | _ ↦ j ]

abbrev pub cleared : Job × Server → Answer × Server
cleared (j, srv) =
    (answered (clear_conflicts j), record srv { jobs = put_job (clear_conflicts j) srv.jobs })

-- The checks before a job is finished: that it waits, and that nothing is left open.
abbrev pub resolve_if : Bool → Bool → Answer × Server → Server → Answer × Server
resolve_if false complete done srv = (refused unexpected_status, srv)
resolve_if true false done srv = (refused unresolved_conflicts, srv)
resolve_if true true done srv = done

unfoldable pub resolve_job : Clock → Texts → List Conflict → Option Job → Server → Answer × Server
unfolding finish_job
resolve_job c texts res none srv = (refused not_found, srv)
resolve_job c texts res (some j) srv =
    resolve_if (needs j.status) (every (is_provided res) j.conflicts)
      (cleared (finish_job c texts (record j { status = processing; step = some 4 }) res srv)) srv

-- `resolve_repair_sync`
unfoldable pub resolve_repair_sync : Clock → Texts → ℕ → List Conflict → Server → Answer × Server
unfolding get_job resolve_job
resolve_repair_sync c texts sync res srv = resolve_job c texts res (get_job sync srv) srv

abbrev pub is_finished : Status → Bool
is_finished completed = true
is_finished failed = true
is_finished cancelled = true
is_finished _ = false

abbrev pub cancelled_job : ℕ → Job → Job
cancelled_job now j = record j { status = cancelled; updated_at = now }

unfoldable pub cancel_if : ℕ → Bool → Job → Server → (Bool × Option Job) × Server
unfolding update_job
cancel_if now true j srv = ((true, some j), srv)
cancel_if now false j srv =
    ((true, some (cancelled_job now j)), update_job (cancelled_job now j) srv)

unfoldable pub cancel_job : ℕ → Option Job → Server → (Bool × Option Job) × Server
unfolding cancel_if
cancel_job now none srv = ((false, none), srv)
cancel_job now (some j) srv = cancel_if now (is_finished j.status) j srv

-- `cancel_repair_sync`: whether there is such a job, and the job.
unfoldable pub cancel_repair_sync : Clock → ℕ → Server → (Bool × Option Job) × Server
unfolding get_job cancel_job
cancel_repair_sync c sync srv = cancel_job c.now (get_job sync srv) srv
