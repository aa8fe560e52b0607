-- ===== src/Host/Snapshot/Allowed.antt =====
-- The check constraint on the statuses of the live rotation, through `upsert_snapshot`
-- (app/core/host_rotation_service.py).
use scales_infrastructure.Prelude.{
  ℕ, ◌≡◌, refl, ◌≤◌, Bool, true, false, Option, none, some, List, [], ◌∷◌, ◌++◌, is_value, get_or,
  any_of, every, count, update_where, Bool-cases, inl, inr, arith,
}
use scales_infrastructure.Models.Tables.{HostRotation}
use scales_infrastructure.Host.Rows.{has_id}
use scales_infrastructure.Host.Snapshot.{
  SnapshotItem, is_allowed, updated_row, new_row, upsert_row, upsert_rows, and_then,
}

abbrev pub is_allowed_item : SnapshotItem → Bool
is_allowed_item i = is_allowed i.status

abbrev pub is_allowed_row : HostRotation → Bool
is_allowed_row r = is_allowed r.status

module _ {A : Type 0} (ok : A → Bool) where
  pub every-update_where :
      (p : A → Bool) (f : A → A)
      → ((x : A) → ok x ≡ true → ok (f x) ≡ true)
      → (xs : List A) → every ok xs ≡ true
      → every ok (update_where p f xs) ≡ true
  every-update_where p f keeps [] h = refl
  every-update_where p f keeps (x ∷ xs) h =
      ground (arith, h, keeps x, every-update_where p f keeps xs)

  every-append_one :
      (xs : List A) (x : A) → every ok xs ≡ true → ok x ≡ true → every ok (xs ++ x ∷ []) ≡ true
  every-append_one [] x h e = rw e refl
  every-append_one (y ∷ xs) x h e = ground (arith, h, every-append_one xs x, e)

  -- An element that does not meet the condition is enough for it to fail.
  pub every-count :
      (q : A → Bool) (xs : List A)
      → ((x : A) → q x ≡ true → ok x ≡ false)
      → 1 ≤ count q xs
      → every ok xs ≡ false
  every-count q [] apart h = absurd (ground (arith, h))
  every-count q (x ∷ xs) apart h = ground (arith, h, apart x, every-count q xs apart)

  pub any_of-count : (xs : List A) → any_of ok xs ≡ true → 1 ≤ count ok xs
  any_of-count [] h = absurd (ground (arith, h))
  any_of-count (x ∷ xs) h = ground (arith, h, any_of-count xs)

module _ (now v : ℕ) (uuid : List HostRotation → ℕ) (session : Option ℕ) (known : List ℕ) where
  upsert_row-allowed :
      (rid : ℕ) (i : SnapshotItem) (rows out : List HostRotation)
      → is_allowed_item i ≡ true
      → every is_allowed_row rows ≡ true
      → upsert_row now v session known rid i rows ≡ some out
      → every is_allowed_row out ≡ true
  unfolding upsert_row
  upsert_row-allowed rid i rows out fits h e =
      elim (Bool-cases (any_of (is_value (some rid)) known)) [
        | inl hit ↦ ground (
          arith,
          hit,
          e,
          every-update_where is_allowed_row (has_id rid) (updated_row now session i) (λ r k. fits)
              rows h,
        )
        | inr miss ↦ elim (Bool-cases (any_of (has_id rid) rows)) [
          | inl taken ↦ absurd (ground (arith, miss, taken, e))
          | inr free ↦ ground (
            arith,
            miss,
            free,
            e,
            every-append_one is_allowed_row rows (new_row now v session rid i) h fits,
          )
        ]
      ]

  pub upsert_rows-allowed :
      (items : List SnapshotItem) (rows out : List HostRotation)
      → every is_allowed_item items ≡ true
      → every is_allowed_row rows ≡ true
      → upsert_rows now v uuid session known items rows ≡ some out
      → every is_allowed_row out ≡ true
  unfolding upsert_rows
  upsert_rows-allowed [] rows out fits h e = ground (arith, h, e)
  upsert_rows-allowed (i ∷ is) rows out fits h e =
      go (upsert_row now v session known (get_or i.id (uuid rows)) i rows) refl
        (λ mid k. upsert_rows-allowed is mid out (ground (arith, fits)) k) e
    where
      go :
          (o : Option (List HostRotation))
          → upsert_row now v session known (get_or i.id (uuid rows)) i rows ≡ o
          → ((mid : List HostRotation)
              → every is_allowed_row mid ≡ true
              → upsert_rows now v uuid session known is mid ≡ some out
              → every is_allowed_row out ≡ true)
          → and_then o (upsert_rows now v uuid session known is) ≡ some out
          → every is_allowed_row out ≡ true
      go none f rest g = absurd (ground (arith, g))
      go (some mid) f rest g =
          rest mid
            (upsert_row-allowed (get_or i.id (uuid rows)) i rows mid (ground (arith, fits)) h f) g
