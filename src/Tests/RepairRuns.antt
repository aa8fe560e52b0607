-- ===== src/Tests/RepairRuns.antt =====
-- Runs of app/services/repair_sync.py.
use scales_infrastructure.Prelude.{◌≡◌, refl, pos, none, some, List, [], ◌∷◌}
use scales_infrastructure.Models.Tables.{pending, host}
use scales_infrastructure.Models.Session.{Clock, ◌>>=◌}
use scales_infrastructure.Models.Session.Flush.{flush, keeps_constraints, written, new_key, add}
use scales_infrastructure.Repair.{SyncSingerItem, SyncQueueItem, Snapshot, resolution_of}
use scales_infrastructure.Repair.Singers.{
  Texts, apply_singer_items, apply_singer, delete_singers, ensure_singer_exists,
  resolve_or_create_song,
}
use scales_infrastructure.Repair.Requests.{apply_items, apply_item, write_item, delete_requests}
use scales_infrastructure.Repair.Jobs.{
  client_wins_mode, prompt, completed, Job, Server, start_repair_sync, get_job,
}
use scales_infrastructure.Repair.Locked.{Managed, IsManaged, managed_of}
use scales_infrastructure.Repair.Progress.{
  Call, starts, resolves, cancels, perform_all, perform_all-IsManaged, Both,
}
use scales_infrastructure.Repair.Durable.{start_repair_sync-silent, start_repair_sync-failed}
use scales_infrastructure.Repair.Store.{perform_all-finished}
use scales_infrastructure.Repair.Again.{start_repair_sync_again}
use scales_infrastructure.Tests.Samples.{evening, show, session_of}

abbrev pub plain : Texts
plain = record { strip = λ t. t; numbered = λ base n. base; uuid = λ t p. 9000 }

abbrev pub renamed : SyncSingerItem
renamed = record {
  id = 31;
  stage_name = "Ada L.";
  first_name = none;
  last_name = none;
  real_name = none;
  pronouns = none;
  email = none;
  phone = none;
  total_points = pos 0;
  loyalty_tier_id = none;
  last_seen = none;
  deactivated_at = none;
  created_at = 20260301000000;
}

abbrev songless : SyncQueueItem
songless = record {
  request_id = 70;
  singer_id = 31;
  singer_name = none;
  song_id = none;
  song_title = none;
  song_artist = none;
  status = pending;
  position = some 1;
  notes = none;
  requested_at = some 20260314210000;
  played_at = none;
  reject_reason = none;
  source = host;
}

abbrev singers_only : Snapshot
singers_only = record {
  singers =
      some
        (record { items = renamed ∷ []; deleted_ids = []; last_modified_at = some 20260301000000 });
  queue = none;
  settings = none;
  now_playing = none;
}

-- A request without a song, which the table does not take.
abbrev with_songless : Snapshot
with_songless = record singers_only {
  queue = some (record { items = songless ∷ []; deleted_ids = []; last_modified_at = none });
}

abbrev idle : Server
idle = record { jobs = []; idempotency_map = []; session = session_of show }

abbrev day : List (Clock × Call)
day =
    (evening, starts 1 7 client_wins_mode singers_only (some 5))
    ∷ (evening, starts 2 7 prompt with_songless none)
    ∷ (evening, cancels 1)
    ∷ []

abbrev ada : Managed
ada = record { account_id = none; total_points = some (pos 10); loyalty_tier_id = none }

perform_all-IsManaged_example : Both (IsManaged 31 ada) (perform_all plain day idle)
unfolding managed_of
perform_all-IsManaged_example = perform_all-IsManaged 31 ada plain day idle (refl, refl)

start_repair_sync-silent_example :
    (start_repair_sync evening plain 1 7 client_wins_mode singers_only none
      idle).1.session.committed
    ≡ idle.session.committed
start_repair_sync-silent_example =
    start_repair_sync-silent evening plain 1 7 client_wins_mode singers_only none idle refl

start_repair_sync-failed_example :
    (start_repair_sync evening plain 1 7 client_wins_mode with_songless none
      idle).1.session.committed
    ≡ idle.session.committed
unfolding start_repair_sync ◌>>=◌ apply_singer_items apply_singer resolution_of delete_singers flush
    keeps_constraints written apply_items apply_item ensure_singer_exists resolve_or_create_song
    new_key write_item add delete_requests
start_repair_sync-failed_example =
    start_repair_sync-failed evening plain 1 7 client_wins_mode with_songless none idle refl

-- The first job is cancelled before the key comes again.
start_repair_sync_again_example :
    let (first_job, srv') =
      start_repair_sync evening plain 1 7 client_wins_mode singers_only (some 5) idle in
    let later : Server =
      perform_all plain
        ((evening, starts 3 9 prompt with_songless (some 6)) ∷ (evening, cancels 1) ∷ [])
        srv' in
    let (again, after) = start_repair_sync evening plain 2 8 prompt with_songless (some 5) later in
    (get_job first_job.sync_id later ≡ some again) × (after ≡ later)
start_repair_sync_again_example =
    start_repair_sync_again evening evening plain plain 1 2 7 8 client_wins_mode prompt singers_only
      with_songless 5
      ((evening, starts 3 9 prompt with_songless (some 6)) ∷ (evening, cancels 1) ∷ []) idle

abbrev ended : Job
ended = record {
  sync_id = 1;
  venue_id = 7;
  mode = prompt;
  snapshot = singers_only;
  status = completed;
  step = some 5;
  summary = none;
  conflicts = [];
  error = none;
  created_at = 20260314210000;
  updated_at = 20260314210000;
  idempotency_key = none;
}

abbrev after_one : Server
after_one = record idle { jobs = ended ∷ [] }

abbrev late_calls : List (Clock × Call)
late_calls =
    (evening, cancels 1)
    ∷ (evening, resolves 1 [])
    ∷ (evening, starts 2 7 prompt with_songless none)
    ∷ []

perform_all-finished_example : get_job 1 (perform_all plain late_calls after_one) ≡ some ended
unfolding get_job
perform_all-finished_example =
    perform_all-finished plain 1 ended late_calls after_one refl refl refl

-- The snapshot of singers is applied, and its job completed.
singers_only_completed :
    (start_repair_sync evening plain 1 7 client_wins_mode singers_only none idle).0.status
    ≡ completed
unfolding start_repair_sync ◌>>=◌ apply_singer_items apply_singer resolution_of delete_singers flush
    keeps_constraints written
singers_only_completed = refl
