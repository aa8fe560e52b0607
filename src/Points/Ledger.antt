-- ===== src/Points/Ledger.antt =====
-- The ledger and the singers' totals move together (app/core/points_service.py, `add_points`).
use scales_infrastructure.Prelude.{
  ℕ, ℤ, pos, ◌+ℤ◌, int_laws, eqb_ℤ, ◌≡◌, ◌∙◌, sym, ==_iff, false, refl, Bool, Option, none, some,
  List, [], ◌∷◌, ◌++◌, String, ◌==◌, get_or, find, update_where, if◌then◌else◌, inl, inr,
  Bool-cases, arith,
}
use scales_infrastructure.Models.Tables.{ReferenceType, Singer, PointsEntry, Tables}
use scales_infrastructure.Models.Session.{Clock, Session, ◌>>=◌}
use scales_infrastructure.Points.{add_points, record_points, bump_total, sum_amounts}

pub sum_amounts-append :
    (p : PointsEntry → Bool) (es fs : List PointsEntry)
    → sum_amounts p (es ++ fs) ≡ sum_amounts p es +ℤ sum_amounts p fs
unfolding sum_amounts
sum_amounts-append p [] fs = omega int_laws
sum_amounts-append p (e ∷ es) fs = rw (sum_amounts-append p es fs) (omega int_laws)

-- The points that a singer's row shows; a missing row and a NULL show none.
abbrev pub shown_total : ℕ → List Singer → ℤ
shown_total singer rows = elim (find (λ (r : Singer). r.id == singer) rows) [
  | none ↦ pos 0
  | some r ↦ get_or r.total_points (pos 0)
]

+ℤ-zero : (a : ℤ) → a +ℤ pos 0 ≡ a
+ℤ-zero a = omega int_laws

abbrev pub ledger_total : ℕ → List PointsEntry → ℤ
ledger_total singer es = sum_amounts (λ e. e.singer_id == singer) es

shown_total-bump :
    (singer : ℕ) (amount : ℤ) (now : ℕ) (rows : List Singer) {r : Singer}
    → find (λ (r : Singer). r.id == singer) rows ≡ some r
    → shown_total singer
        (update_where (λ (r : Singer). r.id == singer) (bump_total amount now) rows)
      ≡ shown_total singer rows +ℤ amount
shown_total-bump singer amount now [] h = cc
shown_total-bump singer amount now (x ∷ rows) {r} h =
    ground (arith, shown_total-bump singer amount now rows {r = r})

shown_total-bump_ne :
    (singer other : ℕ) (amount : ℤ) (now : ℕ) (rows : List Singer)
    → (singer == other) ≡ false
    → shown_total other (update_where (λ (r : Singer). r.id == singer) (bump_total amount now) rows)
      ≡ shown_total other rows
shown_total-bump_ne singer other amount now [] h = refl
shown_total-bump_ne singer other amount now (x ∷ rows) h =
    ground (arith, h, shown_total-bump_ne singer other amount now rows)

module _ (c : Clock) (v : ℕ) (singer : ℕ) (amount : ℤ) (reason : String)
    (kind : Option ReferenceType) (ref : Option ℕ) where
  ledger_total-record_points :
      (other : ℕ) (t : Tables)
      → ledger_total other (record_points c.now v singer amount reason kind ref t).points_ledger
        ≡ ledger_total other t.points_ledger +ℤ (if singer == other then amount else pos 0)
  unfolding record_points sum_amounts
  ledger_total-record_points other t = rw sum_amounts-append (omega int_laws)

  shown_total-record_points :
      (other : ℕ) (t : Tables) {r : Singer}
      → find (λ (r : Singer). r.id == other) t.singers ≡ some r
      → shown_total other (record_points c.now v singer amount reason kind ref t).singers
        ≡ shown_total other t.singers +ℤ (if singer == other then amount else pos 0)
  unfolding record_points
  shown_total-record_points other t h = elim (Bool-cases (singer == other)) [
    | inl hit ↦
        rw hit (rw ((==_iff singer other).0 hit) (shown_total-bump other amount c.now t.singers h))
    | inr miss ↦
        rw miss (shown_total-bump_ne singer other amount c.now t.singers miss ∙ sym (+ℤ-zero _))
  ]

  -- Of a singer who has a row, the points shown and the sum of the ledger move by the same
  -- amount, whoever is awarded.
  pub add_points-in_step :
      (other : ℕ) (s : Session) {r : Singer}
      → find (λ (r : Singer). r.id == other) s.db.singers ≡ some r
      → let t' = (add_points c v singer amount reason kind ref s).1.db in
        shown_total other t'.singers +ℤ ledger_total other s.db.points_ledger
        ≡ shown_total other s.db.singers +ℤ ledger_total other t'.points_ledger
  unfolding add_points ◌>>=◌
  add_points-in_step other s h = elim (Bool-cases (eqb_ℤ amount (pos 0))) [
    | inl e ↦ rw e refl
    | inr e ↦ rw e (
        rw (shown_total-record_points other s.db h, ledger_total-record_points other s.db)
          (omega int_laws))
  ]
