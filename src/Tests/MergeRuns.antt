-- ===== src/Tests/MergeRuns.antt =====
-- Runs of app/services/singer_merge.py.
use scales_infrastructure.Prelude.{◌≡◌, ◌≢◌, refl, ◌+ℤ◌, pos, none, some, false, [], ◌∷◌, arith}
use scales_infrastructure.Models.Tables.{request, Singer, PointsEntry}
use scales_infrastructure.Models.Session.{Session}
use scales_infrastructure.Points.{sum_amounts}
use scales_infrastructure.Points.Ledger.{shown_total}
use scales_infrastructure.Merge.{Request, merge_into}
use scales_infrastructure.Merge.Rows.{points_of, clash, move_followers}
use scales_infrastructure.Merge.Moved.{IsClear, AllMoved}
use scales_infrastructure.Merge.Outcome.{merge_into-AllMoved, merge_into-shown_total}
use scales_infrastructure.Tests.Samples.{evening, show, singer_31, session_of}

abbrev mobile : Singer
mobile = record singer_31 { id = 32; account_id = some 800; stage_name = "Grace" }

abbrev earned : PointsEntry
earned = record {
  venue_id = 7;
  singer_id = 31;
  amount = pos 10;
  reason = "Song";
  reference_type = some request;
  reference_id = none;
  created_at = 20260301000000;
}

abbrev two_singers : Session
two_singers =
    let s = session_of show in
    record s { db = record s.db { singers = singer_31 ∷ mobile ∷ []; points_ledger = earned ∷ [] } }

abbrev by_ids : Request
by_ids = record {
  local_singer_id = some 31;
  local_name = none;
  local_first_name = none;
  local_last_name = none;
  local_email = none;
  local_phone = none;
  target_singer_id = some 32;
  target_account_email = none;
  merged_by_account_id = none;
  merged_by_kj_device_id = none;
  create_stub_if_missing = false;
}

apart : singer_31.id ≢ mobile.id
apart = omega arith

two_singers-IsClear : IsClear 7 31 32 two_singers.db
unfolding clash move_followers
two_singers-IsClear = record {
  achievements = refl;
  tokens = refl;
  settings = refl;
  followers = refl;
  followees = refl;
}

merge_into-AllMoved_example :
    AllMoved 7 31 32 two_singers.db (merge_into evening 7 by_ids singer_31 mobile two_singers).1.db
merge_into-AllMoved_example =
    merge_into-AllMoved evening 7 by_ids singer_31 mobile two_singers apart two_singers-IsClear

merge_into-shown_total_example :
    (let after = (merge_into evening 7 by_ids singer_31 mobile two_singers).1.db in
      (shown_total 32 after.singers ≡ shown_total 32 two_singers.db.singers)
      × (sum_amounts (points_of 7 32) after.points_ledger
          ≡ sum_amounts (points_of 7 32) two_singers.db.points_ledger
            +ℤ sum_amounts (points_of 7 31) two_singers.db.points_ledger))
merge_into-shown_total_example =
    merge_into-shown_total evening 7 by_ids singer_31 mobile two_singers apart two_singers-IsClear
