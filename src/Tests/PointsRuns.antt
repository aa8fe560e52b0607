-- ===== src/Tests/PointsRuns.antt =====
-- Runs of app/core/points_service.py.
use scales_infrastructure.Prelude.{◌≡◌, refl, some, [], ◌∷◌, pos}
use scales_infrastructure.Models.Tables.{iron_lungs, SingerAchievement}
use scales_infrastructure.Models.Session.{Session}
use scales_infrastructure.Points.Achievements.{get_achievements_for_singer}
use scales_infrastructure.Points.Achievements.Unlocked.{unlocked_when, get_achievements-unlocked}
use scales_infrastructure.Tests.Samples.{evening, finished_request, session_of}

abbrev unlocked_row : SingerAchievement
unlocked_row = record {
  venue_id = 7;
  singer_id = 33;
  achievement_key = iron_lungs;
  progress = pos 10;
  unlocked_at = some 20260101000000;
  created_at = 20260101000000;
  updated_at = 20260101000000;
}

abbrev sung : Session
sung =
    let s = session_of (finished_request ∷ []) in
    record s { db = record s.db { singer_achievements = unlocked_row ∷ [] } }

get_achievements-unlocked_example :
    unlocked_when 7 33 iron_lungs
      (get_achievements_for_singer evening 7 33 sung).1.db.singer_achievements
    ≡ some 20260101000000
get_achievements-unlocked_example =
    get_achievements-unlocked evening 7 33 iron_lungs 20260101000000 sung refl
