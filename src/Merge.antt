-- ===== src/Merge.antt =====
-- The merge of a local singer into one that a mobile account is linked to
-- (app/services/singer_merge.py, `merge_local_singer_into_mobile`). Stripping a text and ILIKE are
-- parameters, and so is the key that a new row gets.
pub mod Rows
pub mod Moved
pub mod Outcome
use scales_infrastructure.Prelude.{
  ℕ, pos, Bool, true, false, not, ◌&&◌, Option, none, some, List, [], ◌∷◌, ◌++◌, String, ◌==◌,
  is_none, is_some, is_value, get_or, any_of, select, update_where, if◌then◌else◌,
}
use Prim.Native.String.{◌++◌ as append_text}
use text.Mathlib.Text.{◌==◌ as str_eq}
use scales_infrastructure.Models.Tables.{singer, Singer, SingerLinkMergeLog, Account, Tables}
use scales_infrastructure.Models.Session.{
  Clock, duplicate_key, local_singer_not_found, already_linked, target_singer_not_found,
  merge_into_itself, Action, pure, raise, gets, or_raise, raise_if, one_or_none, modify, rollback,
  ◌>>=◌, ◌>>◌,
}
use scales_infrastructure.Queue.Rotation.{text_or}
use Rows.{Counts, reassign}

pub record Texts : Type 0 where
  pub strip : String → String
  pub ilike : String → String → Bool

-- The arguments after the venue.
pub record Request : Type 0 where
  pub local_singer_id : Option ℕ
  pub local_name : Option String
  pub local_first_name : Option String
  pub local_last_name : Option String
  pub local_email : Option String
  pub local_phone : Option String
  pub target_singer_id : Option ℕ
  pub target_account_email : Option String
  pub merged_by_account_id : Option ℕ
  pub merged_by_kj_device_id : Option ℕ
  pub create_stub_if_missing : Bool

abbrev live_at : ℕ → Singer → Bool
live_at v r = (r.venue_id == v) && is_none r.deleted_at

abbrev pub live_with_id : ℕ → ℕ → Singer → Bool
live_with_id v k r = (r.id == k) && live_at v r

-- A source is not linked to an account.
abbrev local_at : ℕ → Singer → Bool
local_at v r = live_at v r && is_none r.account_id

abbrev like : Texts → Option String → String → Bool
like texts none pattern = false
like texts (some t) pattern = texts.ilike t pattern

-- `(text or "").strip()`, as a condition
abbrev is_text : Texts → Option String → Bool
is_text texts t = not (str_eq (texts.strip (text_or t "")) "")

unfoldable pub by_id : ℕ → Option ℕ → Action (Option Singer)
by_id v none = pure none
by_id v (some k) = do one_or_none (← gets (λ t. select (live_with_id v k) t.singers))

by_email : Texts → ℕ → Option String → Action (Option Singer)
by_email texts v email =
    if is_text texts email
    then (gets (λ t.
          select (λ r. local_at v r && like texts r.email (texts.strip (text_or email "")))
            t.singers)
        >>= one_or_none)
    else pure none

by_name : Texts → ℕ → Option String → Action (Option Singer)
by_name texts v name =
    if is_text texts name
    then (gets (λ t.
          select (λ r. local_at v r && texts.ilike r.stage_name (texts.strip (text_or name "")))
            t.singers)
        >>= one_or_none)
    else pure none

-- `x.strip() if x else None`
abbrev stripped : Texts → Option String → Option String
stripped texts none = none
stripped texts (some t) = if str_eq t "" then none else some (texts.strip t)

abbrev stub_singer : Texts → ℕ → ℕ → ℕ → Request → Singer
stub_singer texts now v k q = record {
  id = k;
  account_id = none;
  venue_id = v;
  stage_name =
      append_text (texts.strip (text_or q.local_name "Merged Local Singer")) " (merged local)";
  first_name = stripped texts q.local_first_name;
  last_name = stripped texts q.local_last_name;
  real_name = none;
  pronouns = none;
  email = stripped texts q.local_email;
  phone = stripped texts q.local_phone;
  role = some singer;
  loyalty_tier_id = none;
  total_points = some (pos 0);
  last_seen = none;
  deactivated_at = none;
  linked_singer_id = none;
  created_at = some now;
  updated_at = some now;
  deleted_at = none;
}

-- The flush that writes the stub; a stage name is unique at a venue.
add_stub : ℕ → Singer → Action (Option Singer)
add_stub v stub = do
  taken ← gets (λ t.
      any_of (λ (r : Singer). (r.venue_id == v) && str_eq r.stage_name stub.stage_name) t.singers)
  if taken
      then (rollback >> raise duplicate_key)
      else (modify (λ t. record t { singers = t.singers ++ stub ∷ [] }) >> pure (some stub))

-- The next way to find a singer, where the ones before found none.
abbrev or_by : Option Singer → Action (Option Singer) → Action (Option Singer)
or_by none m = m
or_by (some r) m = pure (some r)

unfoldable pub find_source :
    Clock → Texts → (List Singer → ℕ) → ℕ → Request → Action (Option Singer)
unfolding by_id by_email by_name add_stub
find_source c texts uuid v q = do
  first ← by_id v q.local_singer_id
  second ← or_by first (by_email texts v q.local_email)
  third ← or_by second (by_name texts v q.local_name)
  k ← gets (λ t. uuid t.singers)
  or_by third
      (if q.create_stub_if_missing then add_stub v (stub_singer texts c.now v k q) else pure none)

-- The singer of an account at the venue.
by_account : ℕ → Option Account → Action (Option Singer)
by_account v none = pure none
by_account v (some a) = do
  one_or_none (← gets (λ t. select (λ r. is_value r.account_id a.id && live_at v r) t.singers))

by_account_email : Texts → ℕ → Option String → Action (Option Singer)
unfolding by_account
by_account_email texts v none = pure none
by_account_email texts v (some email) = if str_eq email "" then pure none else do
  account ←
      one_or_none
        (← gets (λ t. select (λ (a : Account). texts.ilike a.email (texts.strip email)) t.accounts))
  by_account v account

-- `if target_singer_id: … elif target_account_email: …`
unfoldable pub find_target : Texts → ℕ → Request → Action (Option Singer)
unfolding by_id by_account_email
find_target texts v q = elim q.target_singer_id [
  | some k ↦ by_id v (some k)
  | none ↦ by_account_email texts v q.target_account_email
]

abbrev pub leave_local : ℕ → ℕ → ℕ → Singer → Singer
leave_local iso now target r = record r {
  deleted_at = some iso;
  linked_singer_id = some target;
  updated_at = some now;
}

abbrev pub link_target : ℕ → ℕ → Singer → Singer
link_target iso source r = record r {
  linked_singer_id = some (get_or r.linked_singer_id source);
  updated_at = some iso;
}

abbrev merge_log : ℕ → ℕ → ℕ → Request → Counts → SingerLinkMergeLog
merge_log v source target q moved = record {
  venue_id = v;
  source_singer_id = source;
  target_singer_id = target;
  merged_by_account_id = q.merged_by_account_id;
  merged_by_kj_device_id = q.merged_by_kj_device_id;
  queue_requests_moved = moved.queue_requests;
  payments_moved = moved.payments;
  favorites_moved = moved.favorites;
  achievements_moved = moved.singer_achievements;
}

-- The local singer is deleted softly, and each of the two points to the other. `iso` is the time of
-- the merge's own `_now_iso`; `now`, that of the models, is what the update of a row writes by itself.
abbrev pub close_local : ℕ → ℕ → ℕ → ℕ → ℕ → Request → Counts → Tables → Tables
close_local iso now v source target q moved t = record t {
  singers =
      update_where (λ (r : Singer). r.id == target) (link_target iso source)
        (update_where (λ (r : Singer). r.id == source) (leave_local iso now target) t.singers);
  singer_link_merge_logs = t.singer_link_merge_logs ++ merge_log v source target q moved ∷ [];
}

-- The part after both singers are found.
unfoldable pub merge_into : Clock → ℕ → Request → Singer → Singer → Action Counts
unfolding reassign
merge_into c v q source target = do
  raise_if (target.id == source.id) merge_into_itself
  moved ← reassign c.now v source.id target.id
  modify (close_local c.iso_now c.now v source.id target.id q moved)
  pure moved

-- `merge_local_singer_into_mobile`; the caller commits.
unfoldable pub merge_local_singer_into_mobile :
    Clock → Texts → (List Singer → ℕ) → ℕ → Request → Action Counts
unfolding find_source find_target merge_into
merge_local_singer_into_mobile c texts uuid v q = do
  source ← or_raise (← find_source c texts uuid v q) local_singer_not_found
  raise_if (is_some source.account_id) already_linked
  target ← or_raise (← find_target texts v q) target_singer_not_found
  merge_into c v q source target
