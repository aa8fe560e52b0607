-- ===== src/Host/Snapshot/Settled.antt =====
-- The loop of `upsert_snapshot` (app/core/host_rotation_service.py), item by item.
use scales_infrastructure.Prelude.{
  ℕ, ◌+◌, ◌≤◌, ◌≡◌, refl, ap, sym, subst, Bool, true, false, not, ◌&&◌, Option, some, List, [], ◌∷◌,
  ◌++◌, is_value, ◌==◌, any_of, count, count-append, count-imp, update_where,
  count-update_where_same, arith, if◌then◌else◌,
}
use scales_infrastructure.Models.Tables.{HostRotation}
use scales_infrastructure.Host.Rows.{has_id, at_venue, live_at}
use scales_infrastructure.Host.Snapshot.{SnapshotItem, in_snapshot, updated_row, new_row}
use scales_infrastructure.Host.Snapshot.Lines.{
  Line, line_with, line_of_item, line_of_row, count-update_one, count-same_off, count-any, glue,
}

module _ (now v : ℕ) (uuid : List HostRotation → ℕ) (session : Option ℕ) (p : Line → Bool) where
  -- Live rows of the venue, of a line that `p` accepts, that no item is still to write.
  abbrev pub settled : List SnapshotItem → HostRotation → Bool
  settled items r = live_at v r && p (line_of_row r) && not (in_snapshot items r)

  abbrev pub Known : List ℕ → List HostRotation → Type 0
  Known known rows =
      ((k : ℕ) → count (has_id k) rows ≤ 1)
      × ((k : ℕ)
          → any_of (is_value (some k)) known ≡ true
          → 1 ≤ count (λ r. has_id k r && at_venue v r) rows)

  key_of :
      (i : SnapshotItem) (k : ℕ) (r : HostRotation)
      → i.id ≡ some k
      → has_id k r ≡ true
      → some r.id ≡ i.id
  key_of i k r key own = ground arith

  settled-updated :
      (i : SnapshotItem) (is : List SnapshotItem) (k : ℕ) (r : HostRotation)
      → i.id ≡ some k
      → any_of (λ (j : SnapshotItem). is_value j.id k) is ≡ false
      → has_id k r ≡ true
      → settled is (updated_row now session i r) ≡ (at_venue v r && p (line_of_item i))
  settled-updated i is k r key later own =
      let id_key : r.id ≡ k = ground arith in
      glue (at_venue v r) (p (line_with (some r.id) i)) (p (line_of_item i)) (in_snapshot is r)
        (ap (λ (o : Option ℕ). p (line_with o i)) (key_of i k r key own))
        (subst (λ n. any_of (λ (j : SnapshotItem). is_value j.id n) is ≡ false) (sym id_key) later)

  settled_hit :
      (i : SnapshotItem) (is : List SnapshotItem) (k : ℕ) (r : HostRotation)
      → i.id ≡ some k
      → has_id k r ≡ true
      → settled (i ∷ is) r ≡ false
  settled_hit i is k r key own = rw key (ground arith)

  settled_miss :
      (i : SnapshotItem) (is : List SnapshotItem) (k : ℕ) (r : HostRotation)
      → i.id ≡ some k
      → has_id k r ≡ false
      → settled is r ≡ settled (i ∷ is) r
  settled_miss i is k r key other = rw key (ground arith)

  abbrev pub row_at : ℕ → HostRotation → Bool
  row_at k r = has_id k r && at_venue v r

  -- An item whose key a row of the venue has.
  pub update_settles :
      (i : SnapshotItem) (is : List SnapshotItem) (k : ℕ) (rows : List HostRotation)
      → i.id ≡ some k
      → any_of (λ (j : SnapshotItem). is_value j.id k) is ≡ false
      → 1 ≤ count (row_at k) rows
      → count (has_id k) rows ≤ 1
      → count (settled is) (update_where (has_id k) (updated_row now session i) rows)
        ≡ (if p (line_of_item i) then 1 else 0) + count (settled (i ∷ is)) rows
  update_settles i is k rows key later known once = ground (
    arith,
    count-update_one (settled is) (settled (i ∷ is)) (has_id k) (at_venue v) (p (line_of_item i))
        (updated_row now session i)
        (λ r h. (settled-updated i is k r key later h, settled_hit i is k r key h))
        (λ r h. settled_miss i is k r key h) rows,
    count-imp (row_at k) (has_id k) (λ r h. ground arith) rows,
  )

  settled-new :
      (i : SnapshotItem) (is : List SnapshotItem) (k : ℕ)
      → i.id ≡ some k
      → any_of (λ (j : SnapshotItem). is_value j.id k) is ≡ false
      → settled is (new_row now v session k i) ≡ ((v == v) && p (line_of_item i))
  settled-new i is k key later =
      glue (v == v) (p (line_with (some k) i)) (p (line_of_item i))
        (in_snapshot is (new_row now v session k i))
        (ap (λ (o : Option ℕ). p (line_with o i)) (sym key)) later

  -- An item with a key that no row has.
  pub append_settles :
      (i : SnapshotItem) (is : List SnapshotItem) (k : ℕ) (rows : List HostRotation)
      → i.id ≡ some k
      → any_of (λ (j : SnapshotItem). is_value j.id k) is ≡ false
      → any_of (has_id k) rows ≡ false
      → count (settled is) (rows ++ new_row now v session k i ∷ [])
        ≡ (if p (line_of_item i) then 1 else 0) + count (settled (i ∷ is)) rows
  append_settles i is k rows key later absent = ground (
    arith,
    count-append (settled is) rows (new_row now v session k i ∷ []),
    settled-new i is k key later,
    count-same_off (settled is) (settled (i ∷ is)) (has_id k) (λ r h. settled_miss i is k r key h)
        rows (count-any (has_id k) rows absent),
  )

  pub Known-update :
      (known : List ℕ) (i : SnapshotItem) (k : ℕ) (rows : List HostRotation)
      → Known known rows
      → Known known (update_where (has_id k) (updated_row now session i) rows)
  Known-update known i k rows h = (
    λ j.
        rw
          (count-update_where_same (has_id j) (has_id k) (updated_row now session i) (λ r. refl)
            rows)
          (h.0 j),
    λ j e.
        rw
          (count-update_where_same (row_at j) (has_id k) (updated_row now session i) (λ r. refl)
            rows)
          (h.1 j e),
  )

  pub Known-append :
      (known : List ℕ) (i : SnapshotItem) (k : ℕ) (rows : List HostRotation)
      → any_of (has_id k) rows ≡ false
      → Known known rows
      → Known known (rows ++ new_row now v session k i ∷ [])
  Known-append known i k rows absent h = (
    λ j. ground (
      arith,
      count-append (has_id j) rows (new_row now v session k i ∷ []),
      h.0 j,
      ap (λ n. count (has_id n) rows),
      count-any (has_id k) rows absent,
    ),
    λ j e. omega (arith, count-append (row_at j) rows (new_row now v session k i ∷ []), h.1 j e),
  )

  pub count-settled :
      (rows : List HostRotation)
      → count (λ r. live_at v r && p (line_of_row r)) rows ≡ count (settled []) rows
  count-settled [] = refl
  count-settled (r ∷ rows) = ground (arith, count-settled rows)
