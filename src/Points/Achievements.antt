-- ===== src/Points/Achievements.antt =====
-- The achievements of a singer (app/core/points_service.py, `get_achievements_for_singer`).
pub mod Unlocked
use scales_infrastructure.Prelude.{
  ℕ, ℤ, pos, eqb_ℤ, leb_ℤ, Bool, true, false, not, ◌&&◌, ◌||◌, Option, none, some, List, [], ◌∷◌,
  ◌++◌, ◌==◌, is_none, is_some, find, update_where, if◌then◌else◌,
}
use scales_infrastructure.Models.Tables.{
  AchievementKey, first_song, iron_lungs, regular, big_spender, SingerAchievement, Tables,
}
use scales_infrastructure.Models.Session.{Clock, Action, pure, gets, modify, commit, ◌>>=◌, ◌>>◌}
use scales_infrastructure.Points.{eval_completed_songs, eval_checkins, eval_tips}

-- `ACHIEVEMENT_DEFINITIONS[key]["target"]`; the last is in cents.
abbrev pub target_of : AchievementKey → ℤ
target_of first_song = pos 1
target_of iron_lungs = pos 10
target_of regular = pos 5
target_of big_spender = pos 5000

-- `_EVALUATORS[defn["evaluator"]]`
abbrev pub evaluate : ℕ → ℕ → AchievementKey → Tables → ℤ
evaluate v singer first_song = eval_completed_songs v singer
evaluate v singer iron_lungs = eval_completed_songs v singer
evaluate v singer regular = eval_checkins v singer
evaluate v singer big_spender = eval_tips v singer

abbrev pub same_key : AchievementKey → AchievementKey → Bool
same_key first_song first_song = true
same_key iron_lungs iron_lungs = true
same_key regular regular = true
same_key big_spender big_spender = true
same_key _ _ = false

abbrev pub row_of : ℕ → ℕ → AchievementKey → SingerAchievement → Bool
row_of v singer key r =
    (r.venue_id == v) && (r.singer_id == singer) && same_key r.achievement_key key

-- What the loop writes to a row; the time of the unlocking is written once.
abbrev pub progress_row : ℕ → ℤ → ℤ → SingerAchievement → SingerAchievement
progress_row now current target r = record r {
  progress = current;
  unlocked_at = if is_none r.unlocked_at && leb_ℤ target current then some now else r.unlocked_at;
  updated_at = now;
}

abbrev pub new_row : ℕ → ℕ → ℕ → AchievementKey → ℤ → SingerAchievement
new_row now v singer key current = record {
  venue_id = v;
  singer_id = singer;
  achievement_key = key;
  progress = current;
  unlocked_at = if leb_ℤ (target_of key) current then some now else none;
  created_at = now;
  updated_at = now;
}

abbrev pub write_rows : (List SingerAchievement → List SingerAchievement) → Action (Unit {0})
write_rows f = do modify (λ t. record t { singer_achievements = f t.singer_achievements }); commit

-- The write for one key, given its row as it was loaded.
unfoldable pub write_progress :
    Clock → ℕ → ℕ → AchievementKey → ℤ → Option SingerAchievement → Action (Unit {0})
write_progress c v singer key current none =
    if not (eqb_ℤ current (pos 0)) || leb_ℤ (target_of key) current
    then write_rows (λ rows. rows ++ new_row c.now v singer key current ∷ [])
    else pure tt
write_progress c v singer key current (some r) =
    if not (eqb_ℤ current r.progress) || (is_none r.unlocked_at && leb_ℤ (target_of key) current)
    then write_rows
        (update_where (row_of v singer key) (progress_row c.now current (target_of key)))
    else pure tt

-- An element of the answer.
pub record Achieved : Type 0 where
  pub achievement_key : AchievementKey
  pub progress : ℤ
  pub target : ℤ
  pub unlocked_at : Option ℕ
  pub unlocked : Bool

abbrev pub shown : AchievementKey → Option SingerAchievement → Achieved
shown key none = record {
  achievement_key = key;
  progress = pos 0;
  target = target_of key;
  unlocked_at = none;
  unlocked = false;
}
shown key (some r) = record {
  achievement_key = key;
  progress = r.progress;
  target = target_of key;
  unlocked_at = r.unlocked_at;
  unlocked = is_some r.unlocked_at;
}

-- One pass of the loop; each pass writes the row of its own key alone, so that the rows loaded
-- before the loop are those read here.
unfoldable pub achieve : Clock → ℕ → ℕ → AchievementKey → Action Achieved
achieve c v singer key = do
  row ← gets (λ t. find (row_of v singer key) t.singer_achievements)
  current ← gets (evaluate v singer key)
  write_progress c v singer key current row
  gets (λ t. shown key (find (row_of v singer key) t.singer_achievements))

-- `get_achievements_for_singer`
unfoldable pub get_achievements_for_singer : Clock → ℕ → ℕ → Action (List Achieved)
get_achievements_for_singer c v singer = do
  song ← achieve c v singer first_song
  lungs ← achieve c v singer iron_lungs
  visits ← achieve c v singer regular
  spent ← achieve c v singer big_spender
  pure (song ∷ lungs ∷ visits ∷ spent ∷ [])
