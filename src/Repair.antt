-- ===== src/Repair.antt =====
-- The full repair sync of a venue (app/services/repair_sync.py): what a KJ desktop sends, and what
-- a resolution decides. Keys of settings are numbers, as identifiers are. The labels and the two
-- states of a conflict are left out but for the texts that may name a winner.
pub mod Detect
pub mod Names
pub mod Singers
pub mod Requests
pub mod Apply
pub mod Jobs
pub mod Locked
pub mod Durable
pub mod Progress
pub mod Store
pub mod Again
use scales_infrastructure.Prelude.{
  ℕ, ℤ, Bool, true, false, ◌&&◌, Option, none, some, List, [], ◌∷◌, String, ◌==◌, find,
  if◌then◌else◌,
}
use scales_infrastructure.Models.Tables.{Status, Source}

pub record SyncSingerItem : Type 0 where
  pub id : ℕ
  pub stage_name : String
  pub first_name : Option String
  pub last_name : Option String
  pub real_name : Option String
  pub pronouns : Option String
  pub email : Option String
  pub phone : Option String
  pub total_points : ℤ
  pub loyalty_tier_id : Option ℕ
  pub last_seen : Option ℕ
  pub deactivated_at : Option ℕ
  pub created_at : ℕ

pub record SyncQueueItem : Type 0 where
  pub request_id : ℕ
  pub singer_id : ℕ
  pub singer_name : Option String
  pub song_id : Option ℕ
  pub song_title : Option String
  pub song_artist : Option String
  pub status : Status
  pub position : Option ℕ
  pub notes : Option String
  pub requested_at : Option ℕ
  pub played_at : Option ℕ
  pub reject_reason : Option String
  pub source : Source

pub record SyncSettingItem : Type 0 where
  pub key : ℕ
  pub value : Option String
  pub updated_at : ℕ

pub record NowPlayingSnapshot : Type 0 where
  pub singer_id : Option ℕ
  pub song_id : Option ℕ
  pub song_title : Option String
  pub song_artist : Option String
  pub singer_name : Option String
  pub is_dj_track : Bool
  pub started_at : Option ℕ

-- RepairSyncSingerSnapshot, RepairSyncQueueSnapshot and RepairSyncSettingsSnapshot; the last has no
-- `deleted_ids`.
pub record Part (A : Type 0) : Type 0 where
  pub items : List A
  pub deleted_ids : List ℕ
  pub last_modified_at : Option ℕ

pub record Snapshot : Type 0 where
  pub singers : Option (Part SyncSingerItem)
  pub queue : Option (Part SyncQueueItem)
  pub settings : Option (Part SyncSettingItem)
  pub now_playing : Option NowPlayingSnapshot

pub data EntityType : Type 0 where
  singers_entity queue_entity settings_entity : EntityType

pub data Resolution : Type 0 where
  server_wins client_wins merge : Resolution

-- The fields that the merge of a singer or of a setting reads.
pub data Field : Type 0 where
  stage_name first_name last_name real_name pronouns email phone : Field
  last_seen deactivated_at value : Field

-- A text that names a winner, or any other.
pub data Winner : Type 0 where
  server client other_text : Winner

-- RepairSyncConflict; `client_state` are its fields that are texts.
pub record Conflict : Type 0 where
  pub entity_type : EntityType
  pub entity_id : ℕ
  pub resolution : Resolution
  pub field_resolutions : List (Field × Winner)
  pub client_state : List (Field × Winner)

abbrev pub same_entity : EntityType → EntityType → Bool
same_entity singers_entity singers_entity = true
same_entity queue_entity queue_entity = true
same_entity settings_entity settings_entity = true
same_entity _ _ = false

abbrev field_number : Field → ℕ
field_number stage_name = 0
field_number first_name = 1
field_number last_name = 2
field_number real_name = 3
field_number pronouns = 4
field_number email = 5
field_number phone = 6
field_number last_seen = 7
field_number deactivated_at = 8
field_number value = 9

abbrev pub names : EntityType → ℕ → Conflict → Bool
names e k c = same_entity c.entity_type e && (c.entity_id == k)

abbrev or_earlier : Option Conflict → Bool → Conflict → Option Conflict
or_earlier (some later) hit c = some later
or_earlier none hit c = if hit then some c else none

-- `_resolutions_by_id`, then `.get`: the last of a key is the one that is kept.
unfoldable pub resolution_of : EntityType → ℕ → List Conflict → Option Conflict
resolution_of e k [] = none
resolution_of e k (c ∷ cs) = or_earlier (resolution_of e k cs) (names e k c) c

-- `resolution and resolution.resolution == "server_wins"`, and the same for the other two
abbrev pub is_server_wins : Option Conflict → Bool
is_server_wins (some c) = elim c.resolution [ server_wins ↦ true | _ ↦ false ]
is_server_wins none = false

abbrev pub is_client_wins : Option Conflict → Bool
is_client_wins (some c) = elim c.resolution [ client_wins ↦ true | _ ↦ false ]
is_client_wins none = false

abbrev pub is_merge : Option Conflict → Bool
is_merge (some c) = elim c.resolution [ merge ↦ true | _ ↦ false ]
is_merge none = false

abbrev winner_in : Field → List (Field × Winner) → Option Winner
winner_in f [] = none
winner_in f ((g, w) ∷ ws) = if field_number g == field_number f then some w else winner_in f ws

-- `field_winners`: the resolutions of the fields, then the texts of `client_state`.
abbrev pub field_winner : Field → Conflict → Option Winner
field_winner f c = elim (winner_in f c.field_resolutions) [
  | some w ↦ some w
  | none ↦ winner_in f c.client_state
]

-- `if winner == "server"` … of `_merge_singer`, for one field of both sides
abbrev pick {ℓ} : {A : Type ℓ} → Option Winner → A → A → A
pick (some server) ours theirs = ours
pick _ ours theirs = theirs

abbrev pub merge_field {ℓ} : {A : Type ℓ} → Option Conflict → Field → A → A → A
merge_field none f ours theirs = theirs
merge_field (some c) f ours theirs =
    if is_merge (some c) then pick (field_winner f c) ours theirs else theirs
