-- ===== src/Host/Snapshot/Exact.antt =====
-- The live rotation after a snapshot (app/core/host_rotation_service.py, `upsert_snapshot`).
use scales_infrastructure.Prelude.{
  ℕ, ◌≤◌, ◌≡◌, refl, sym, ◌∙◌, subst, Bool, false, not, ◌&&◌, Option, some, List, [], ◌∷◌, is_value,
  any_of, count, select, All, All-imp, update_where, count-update_where_same, arith,
}
use scales_infrastructure.Models.Tables.{HostRotation}
use scales_infrastructure.Models.Session.{Session}
use scales_infrastructure.Host.Rows.{has_id, at_venue, marked_at}
use scales_infrastructure.Host.Snapshot.{SnapshotItem, demoted_row, left_out, deleted_row, ids_of}
use scales_infrastructure.Host.Snapshot.Settled.{Known}
use scales_infrastructure.Host.Snapshot.Loop.{Ready, Settles, upsert_rows-Settles}
use scales_infrastructure.Host.Snapshot.Lines.{
  Line, HasKeys, any_of-update_where_same, any_of→count,
}

-- The row has the key of the item, and belongs to another venue.
abbrev pub foreign_row : ℕ → SnapshotItem → HostRotation → Bool
foreign_row v i r = is_value i.id r.id && not (at_venue v r)

abbrev pub IsFree : ℕ → List SnapshotItem → List HostRotation → Type 0
IsFree v items rows = All (λ (i : SnapshotItem). count (foreign_row v i) rows ≡ 0) items

any_of-known :
    (v k : ℕ) (rows : List HostRotation)
    → any_of (is_value (some k)) (ids_of (select (at_venue v) rows))
      ≡ any_of (λ r. has_id k r && at_venue v r) rows
any_of-known v k [] = refl
any_of-known v k (r ∷ rows) = ground (arith, any_of-known v k rows)

any_of_own :
    (v k : ℕ) (rows : List HostRotation)
    → count (λ (r : HostRotation). is_value (some k) r.id && not (at_venue v r)) rows ≡ 0
    → any_of (λ r. has_id k r && at_venue v r) rows ≡ false
    → any_of (has_id k) rows ≡ false
any_of_own v k [] free absent = refl
any_of_own v k (r ∷ rows) free absent = ground (arith, any_of_own v k rows)

module _ (now v : ℕ) (uuid : List HostRotation → ℕ) (session : Option ℕ) (p : Line → Bool)
    (rows : List HostRotation) where
  abbrev known : List ℕ
  known = ids_of (select (at_venue v) rows)

  abbrev swept : List SnapshotItem → List HostRotation
  swept items = update_where (left_out v items) (deleted_row now) rows

  Known-swept :
      (items : List SnapshotItem)
      → ((k : ℕ) → count (has_id k) rows ≤ 1)
      → Known now v uuid session p known (swept items)
  Known-swept items once = (
    λ k.
        rw
          (count-update_where_same (has_id k) (left_out v items) (deleted_row now) (λ r. refl) rows)
          (once k),
    λ k h.
        rw
          (count-update_where_same (λ r. has_id k r && at_venue v r) (left_out v items)
            (deleted_row now) (λ r. refl) rows)
          (any_of→count (λ r. has_id k r && at_venue v r) rows (sym (any_of-known v k rows) ∙ h)),
  )

  Ready-swept :
      (items is : List SnapshotItem)
      → IsFree v is rows
      → Ready now v uuid session p known is (swept items)
  Ready-swept items [] free = tt
  Ready-swept items (i ∷ is) free = (
    λ k key absent.
        any_of-update_where_same (has_id k) (left_out v items) (deleted_row now) (λ r. refl) rows
        ∙ any_of_own v k rows
            (subst
              (λ (o : Option ℕ).
                count (λ (r : HostRotation). is_value o r.id && not (at_venue v r)) rows ≡ 0)
              key free.0)
            (sym (any_of-known v k rows) ∙ absent),
    Ready-swept items is free.1,
  )

  pub settle :
      (items : List SnapshotItem)
      → ((k : ℕ) → count (has_id k) rows ≤ 1)
      → HasKeys items
      → IsFree v items rows
      → Settles now v uuid session p known items (swept items)
  settle items once keys free =
      upsert_rows-Settles now v uuid session p known items (swept items) keys
        (Known-swept items once) (Ready-swept items items free)

abbrev pub demoted : ℕ → ℕ → List HostRotation → List HostRotation
demoted now v rows = update_where (marked_at v) (demoted_row now) rows

pub demoted-once :
    (now v : ℕ) (rows : List HostRotation)
    → ((k : ℕ) → count (has_id k) rows ≤ 1)
    → (k : ℕ) → count (has_id k) (demoted now v rows) ≤ 1
demoted-once now v rows once k =
    rw (count-update_where_same (has_id k) (marked_at v) (demoted_row now) (λ r. refl) rows)
      (once k)

pub demoted-IsFree :
    (now v : ℕ) (items : List SnapshotItem) (rows : List HostRotation)
    → IsFree v items rows
    → IsFree v items (demoted now v rows)
demoted-IsFree now v items rows free =
    All-imp _ (λ (i : SnapshotItem). count (foreign_row v i) (demoted now v rows) ≡ 0)
      (λ i h.
        count-update_where_same (foreign_row v i) (marked_at v) (demoted_row now) (λ r. refl) rows
        ∙ h)
      items free
