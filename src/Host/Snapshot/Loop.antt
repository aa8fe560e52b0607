-- ===== src/Host/Snapshot/Loop.antt =====
-- The whole loop of `upsert_snapshot` (app/core/host_rotation_service.py).
use scales_infrastructure.Prelude.{
  ℕ, ◌+◌, ◌≡◌, refl, ap, ◌∙◌, Bool, true, false, ◌&&◌, Option, some, List, [], ◌∷◌, ◌++◌, is_value,
  any_of, count, update_where, Bool-cases, inl, inr, arith, get_or,
}
use scales_infrastructure.Models.Tables.{HostRotation}
use scales_infrastructure.Host.Rows.{has_id, live_at}
use scales_infrastructure.Host.Snapshot.{
  SnapshotItem, updated_row, new_row, upsert_row, upsert_rows, and_then,
}
use scales_infrastructure.Host.Snapshot.Lines.{
  Line, line_of_item, line_of_row, HasKeys, any_of-update_where_same, any_of-append_one, other_key,
}
use scales_infrastructure.Host.Snapshot.Settled.{
  settled, Known, update_settles, append_settles, Known-update, Known-append, count-settled,
}

module _ (now v : ℕ) (uuid : List HostRotation → ℕ) (session : Option ℕ) (p : Line → Bool) where
  -- No row that is not known has the key of an item.
  abbrev pub Ready : List ℕ → List SnapshotItem → List HostRotation → Type 0
  Ready known [] rows = Unit
  Ready known (i ∷ is) rows =
      ((k : ℕ)
        → i.id ≡ some k
        → any_of (is_value (some k)) known ≡ false
        → any_of (has_id k) rows ≡ false)
      × Ready known is rows

  any_of-updated :
      (i : SnapshotItem) (k j : ℕ) (rows : List HostRotation)
      → any_of (has_id j) (update_where (has_id k) (updated_row now session i) rows)
        ≡ any_of (has_id j) rows
  any_of-updated i k j rows =
      any_of-update_where_same (has_id j) (has_id k) (updated_row now session i) (λ r. refl) rows

  Ready-update :
      (known : List ℕ) (i : SnapshotItem) (k : ℕ) (is : List SnapshotItem)
      (rows : List HostRotation)
      → Ready known is rows
      → Ready known is (update_where (has_id k) (updated_row now session i) rows)
  Ready-update known i k [] rows h = tt
  Ready-update known i k (j ∷ is) rows h =
      (λ n e u. any_of-updated i k n rows ∙ h.0 n e u, Ready-update known i k is rows h.1)

  Ready-append :
      (known : List ℕ) (i : SnapshotItem) (k : ℕ) (is : List SnapshotItem)
      (rows : List HostRotation)
      → any_of (λ (j : SnapshotItem). is_value j.id k) is ≡ false
      → Ready known is rows
      → Ready known is (rows ++ new_row now v session k i ∷ [])
  Ready-append known i k [] rows later h = tt
  Ready-append known i k (j ∷ is) rows later h = (
    λ n e u.
        any_of-append_one (has_id n) rows (new_row now v session k i) (h.0 n e u)
          (other_key k n j is e later),
    Ready-append known i k is rows (ground arith) h.1,
  )

  -- The loop writes every item, and the live rows that it leaves are the items and what was
  -- settled before.
  abbrev pub Settles : List ℕ → List SnapshotItem → List HostRotation → Type 0
  Settles known items rows =
      (out : List HostRotation) × (upsert_rows now v uuid session known items rows ≡ some out)
      × (count (λ r. live_at v r && p (line_of_row r)) out
          ≡ count (λ i. p (line_of_item i)) items + count (settled now v uuid session p items) rows)

  own_key :
      (i : SnapshotItem) (k : ℕ) (rows : List HostRotation)
      → i.id ≡ some k
      → get_or i.id (uuid rows) ≡ k
  own_key i k rows key = ap (λ o. get_or o (uuid rows)) key

  upsert_row_known :
      (known : List ℕ) (i : SnapshotItem) (k : ℕ) {rid : ℕ}
      → rid ≡ k
      → (rows : List HostRotation) → any_of (is_value (some k)) known ≡ true
      → upsert_row now v session known rid i rows
        ≡ some (update_where (has_id k) (updated_row now session i) rows)
  unfolding upsert_row
  upsert_row_known known i k e rows hit = rw e (rw hit)

  upsert_row_new :
      (known : List ℕ) (i : SnapshotItem) (k : ℕ) {rid : ℕ}
      → rid ≡ k
      → (rows : List HostRotation) → any_of (is_value (some k)) known ≡ false
      → any_of (has_id k) rows ≡ false
      → upsert_row now v session known rid i rows ≡ some (rows ++ new_row now v session k i ∷ [])
  unfolding upsert_row
  upsert_row_new known i k e rows miss absent = rw e (rw miss (rw absent))

  pub upsert_rows-Settles :
      (known : List ℕ) (items : List SnapshotItem) (rows : List HostRotation)
      → HasKeys items
      → Known now v uuid session p known rows
      → Ready known items rows
      → Settles known items rows
  unfolding upsert_rows
  upsert_rows-Settles known [] rows keys known_rows ready =
      (rows, refl, omega (arith, count-settled now v uuid session p rows))
  upsert_rows-Settles known (i ∷ is) rows ((k, key, later), keys) known_rows ready =
      let step : Option (List HostRotation) → Option (List HostRotation) =
        (λ o. and_then o (upsert_rows now v uuid session known is)) in
      elim (Bool-cases (any_of (is_value (some k)) known)) [
        | inl hit ↦
            let next = update_where (has_id k) (updated_row now session i) rows in
            let rest =
              upsert_rows-Settles known is next keys
                (Known-update now v uuid session p known i k rows known_rows)
                (Ready-update known i k is rows ready.1) in
            (
              rest.0,
              ap step (upsert_row_known known i k (own_key i k rows key) rows hit) ∙ rest.1,
              omega (
                arith,
                rest.2,
                update_settles now v uuid session p i is k rows key later (known_rows.1 k hit)
                    (known_rows.0 k),
              ),
            )
        | inr miss ↦
            let next = rows ++ new_row now v session k i ∷ [] in
            let absent = ready.0 k key miss in
            let rest =
              upsert_rows-Settles known is next keys
                (Known-append now v uuid session p known i k rows absent known_rows)
                (Ready-append known i k is rows later ready.1) in
            (
              rest.0,
              ap step (upsert_row_new known i k (own_key i k rows key) rows miss absent) ∙ rest.1,
              omega
                  (arith, rest.2, append_settles now v uuid session p i is k rows key later absent),
            )
      ]
