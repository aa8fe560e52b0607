-- ===== src/Tests/Samples.antt =====
-- A small venue: what the tests of the queue run on.
use scales_infrastructure.Prelude.{ℕ, pos, Option, none, some, List, [], ◌∷◌}
use scales_infrastructure.Models.Tables.{
  Status, pending, approved, now_playing, completed, host, QueueRequest, Singer, Song, KjDevice,
  Tables,
}
use scales_infrastructure.Models.Session.{Clock, Session, empty}

-- 2026-03-14 21:30:00 UTC; an hour before that; any earlier cutoff.
abbrev pub evening : Clock
evening = record { now = 20260314213000; iso_now = 20260314213000250000; ago = λ n. 20260314203000 }

-- 2026-04-01 07:15:00 UTC
abbrev pub first_morning : Clock
first_morning = record {
  now = 20260401071500;
  iso_now = 20260401071500250000;
  ago = λ n. 20260401061500;
}

-- A request of venue 7: key, singer, status, position, time.
abbrev pub request_of : ℕ → ℕ → Status → Option ℕ → ℕ → QueueRequest
request_of rid singer status place time = record {
  id = rid;
  venue_id = 7;
  singer_id = some singer;
  song_id = 500;
  status = status;
  notes = none;
  reject_reason = none;
  source = host;
  rotation_position = place;
  requested_at = some time;
  updated_at = some time;
  played_at = none;
  deleted_at = none;
}

abbrev pub playing_request : QueueRequest
playing_request = request_of 1 31 now_playing (some 1) 20260314210000

abbrev pub waiting_request : QueueRequest
waiting_request = request_of 2 32 approved (some 2) 20260314210500

abbrev pub finished_request : QueueRequest
finished_request = request_of 3 33 completed none 20260314200000

abbrev pub later_request : QueueRequest
later_request = request_of 4 31 pending (some 3) 20260314211000

abbrev pub singer_31 : Singer
singer_31 = record {
  id = 31;
  account_id = none;
  venue_id = 7;
  stage_name = "Ada";
  first_name = none;
  last_name = none;
  real_name = none;
  pronouns = none;
  email = none;
  phone = none;
  role = none;
  loyalty_tier_id = none;
  total_points = some (pos 10);
  last_seen = none;
  deactivated_at = none;
  linked_singer_id = none;
  created_at = none;
  updated_at = none;
  deleted_at = none;
}

abbrev pub other_singers : List Singer
other_singers =
    record singer_31 { id = 32; stage_name = "Grace" }
    ∷ record singer_31 { id = 33; stage_name = "Alan" }
    ∷ []

abbrev sung : Song
sung = record {
  id = 500;
  venue_id = 7;
  catalog_id = none;
  title = "Creep";
  artist = "Radiohead";
  deleted_at = none;
}

abbrev pub device : KjDevice
device = record { id = 90; venue_id = 7; last_seen = some 20260401070000; revoked_at = none }

abbrev pub tables_of : List QueueRequest → Tables
tables_of rows = record {
  queue_requests = rows;
  host_rotation = [];
  singers = singer_31 ∷ other_singers;
  songs = sung ∷ [];
  singer_removals = [];
  kj_devices = device ∷ [];
  points_ledger = [];
  loyalty_points = [];
  loyalty_tiers = [];
  orders = [];
  check_in_sessions = [];
  singer_achievements = [];
  notifications = [];
  notification_settings = [];
  device_tokens = [];
  venue_configs = [];
  singer_favorites = [];
  singer_follows = [];
  singer_link_merge_logs = [];
  accounts = [];
  rotation_entries = [];
  payments = [];
  loyalty_quest_completions = [];
  leaderboard_entries = [];
  share_events = [];
}

abbrev pub session_of : List QueueRequest → Session
session_of rows = record {
  db = tables_of rows;
  committed = tables_of rows;
  pending = empty;
  events = [];
  pushes = [];
}

abbrev pub show : List QueueRequest
show = playing_request ∷ waiting_request ∷ finished_request ∷ later_request ∷ []
