-- ===== src/Host/Snapshot/Refused.antt =====
-- A snapshot that the check constraint on the statuses refuses
-- (app/core/host_rotation_service.py, `upsert_snapshot`).
use scales_infrastructure.Prelude.{
  ℕ, ◌≤◌, ◌≡◌, refl, Bool, false, ◌+◌, not, ◌&&◌, Option, List, [], ◌∷◌, any_of, every, true, count,
  Bool-cases, inl, inr, arith,
}
use scales_infrastructure.Models.Tables.{Status, approved, HostRotation}
use scales_infrastructure.Models.Session.{Clock, Session, err, status_not_allowed, empty, ◌>>=◌}
use scales_infrastructure.Host.Rows.{has_id, live_at, write_rows}
use scales_infrastructure.Host.Snapshot.{SnapshotItem, any_playing, is_allowed, upsert_snapshot}
use scales_infrastructure.Host.Snapshot.Allowed.{is_allowed_row, every-count}
use scales_infrastructure.Host.Snapshot.Lines.{Line, line_of_item, line_of_row, HasKeys}
use scales_infrastructure.Host.Snapshot.Exact.{
  IsFree, settle, demoted, demoted-once, demoted-IsFree,
}

abbrev pub is_approved : Status → Bool
is_approved approved = true
is_approved _ = false

approved-refused : (t : Status) → is_approved t ≡ true → is_allowed t ≡ false
approved-refused t h = ground (arith, h)

abbrev refused_line : Line → Bool
refused_line l = not (is_allowed l.status)

-- A snapshot with an item that is `approved` is refused, and what the request wrote before is taken
-- back. The items have distinct keys, none of them of another venue's row, and the keys of the table
-- are to be unique.
pub upsert_snapshot-approved :
    (c : Clock) (v : ℕ) (uuid : List HostRotation → ℕ) (items : List SnapshotItem)
    (session : Option ℕ) (s : Session)
    → ((k : ℕ) → count (has_id k) s.db.host_rotation ≤ 1)
    → HasKeys items
    → IsFree v items s.db.host_rotation
    → any_of (λ (i : SnapshotItem). is_approved i.status) items ≡ true
    → upsert_snapshot c v uuid items session s
      ≡ (err status_not_allowed, record s { db = s.committed; pending = empty })
unfolding upsert_snapshot write_rows ◌>>=◌
upsert_snapshot-approved c v uuid items session s once keys free some_approved =
    elim (Bool-cases (any_playing items)) [
      | inl playing ↦
          let out =
            settle c.now v uuid session refused_line (demoted c.now v s.db.host_rotation) items
              (demoted-once c.now v _ once) keys (demoted-IsFree c.now v items _ free) in
          rw playing (rw out.1 (rw (refused out.0 _ out.2) refl))
      | inr quiet ↦
          let out =
            settle c.now v uuid session refused_line s.db.host_rotation items once keys free in
          rw quiet (rw out.1 (rw (refused out.0 _ out.2) refl))
    ]
  where
    named :
        (xs : List SnapshotItem)
        → any_of (λ (i : SnapshotItem). is_approved i.status) xs ≡ true
        → 1 ≤ count (λ i. refused_line (line_of_item i)) xs
    named [] h = absurd (ground (arith, h))
    named (x ∷ xs) h = ground (arith, h, approved-refused x.status, named xs)

    refused :
        (xs : List HostRotation) (n : ℕ)
        → count (λ r. live_at v r && refused_line (line_of_row r)) xs
          ≡ count (λ i. refused_line (line_of_item i)) items + n
        → every is_allowed_row xs ≡ false
    refused xs n h =
        every-count is_allowed_row (λ r. live_at v r && refused_line (line_of_row r)) xs
          (λ r k. ground (arith, k)) (omega (arith, h, named items some_approved))
