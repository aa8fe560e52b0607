-- ===== src/Repair/Names.antt =====
-- A stage name that is free at the venue (app/services/repair_sync.py, the loop of
-- `_ensure_singer_exists`), and that the loop ends.
use scales_infrastructure.Prelude.{
  ℕ, zero, suc, ◌+◌, ◌≤◌, ◌<◌, ◌≡◌, refl, Bool, true, false, List, [], ◌∷◌, String, count, length,
  any_of, if◌then◌else◌, Bool-cases, inl, inr, arith,
}

-- From the counter `n` on, with fuel; `name 1` is the name without a number.
unfoldable pub free_name : (String → Bool) → (ℕ → String) → ℕ → ℕ → String
free_name taken name n zero = name n
free_name taken name n (suc fuel) =
    let next = free_name taken name (suc n) fuel in if taken (name n) then next else name n

-- A row has at most one of the names.
module _ {A : Type 0} (has : String → A → Bool) (name : ℕ → String)
    (single : (r : A) (i j : ℕ) → has (name i) r ≡ true → has (name j) r ≡ true → i ≡ j) where
  -- How many of the names from `n` on, `m` of them, the row has.
  hits : ℕ → ℕ → A → ℕ
  hits n zero r = 0
  hits n (suc m) r = (if has (name n) r then 1 else 0) + hits (suc n) m r

  hits-none : (r : A) (k : ℕ) → has (name k) r ≡ true → (n m : ℕ) → k < n → hits n m r ≡ 0
  unfolding hits
  hits-none r k e n zero l = refl
  hits-none r k e n (suc m) l = elim (Bool-cases (has (name n) r)) [
    | inl hit ↦ absurd (omega (arith, single r n k hit e))
    | inr miss ↦ rw miss (omega (arith, hits-none r k e (suc n) m (omega arith)))
  ]

  hits-le : (r : A) (n m : ℕ) → hits n m r ≤ 1
  unfolding hits
  hits-le r n zero = omega arith
  hits-le r n (suc m) = elim (Bool-cases (has (name n) r)) [
    | inl hit ↦ rw hit (omega (arith, hits-none r n hit (suc n) m (omega arith)))
    | inr miss ↦ rw miss (omega (arith, hits-le r (suc n) m))
  ]

  total : ℕ → ℕ → List A → ℕ
  total n zero rows = 0
  total n (suc m) rows = count (has (name n)) rows + total (suc n) m rows

  total-cons :
      (r : A) (rows : List A) (n m : ℕ) → total n m (r ∷ rows) ≡ hits n m r + total n m rows
  unfolding total hits
  total-cons r rows n zero = refl
  total-cons r rows n (suc m) = ground (arith, total-cons r rows (suc n) m)

  total-nil : (n m : ℕ) → total n m [] ≡ 0
  unfolding total
  total-nil n zero = refl
  total-nil n (suc m) = omega (arith, total-nil (suc n) m)

  total-le : (rows : List A) (n m : ℕ) → total n m rows ≤ length rows
  total-le [] n m = omega (arith, total-nil n m)
  total-le (r ∷ rows) n m = omega (arith, total-cons r rows n m, hits-le r n m, total-le rows n m)

  abbrev taken_in : List A → String → Bool
  taken_in rows x = any_of (has x) rows

  any_of→count : (x : String) (rows : List A) → taken_in rows x ≡ true → 1 ≤ count (has x) rows
  any_of→count x [] h = absurd (ground arith)
  any_of→count x (r ∷ rows) h = ground (arith, any_of→count x rows)

  taken→total :
      (rows : List A) (n m : ℕ)
      → taken_in rows (free_name (taken_in rows) name n m) ≡ true
      → suc m ≤ total n (suc m) rows
  unfolding free_name total
  taken→total rows n zero h = omega (arith, any_of→count (name n) rows h)
  taken→total rows n (suc m) h = elim (Bool-cases (taken_in rows (name n))) [
    | inl hit ↦
        omega (
          arith,
          any_of→count (name n) rows hit,
          taken→total rows (suc n) m (ground (arith, h, hit)),
        )
    | inr miss ↦ absurd (ground (arith, h, miss))
  ]

  -- As much fuel as there are rows is enough: the name that the loop ends with is not taken. No row
  -- has two of the names that are tried.
  pub free_name-free :
      (rows : List A) (n : ℕ)
      → any_of (has (free_name (λ x. any_of (has x) rows) name n (length rows))) rows ≡ false
  free_name-free rows n =
      elim (Bool-cases (taken_in rows (free_name (taken_in rows) name n (length rows)))) [
        | inl stuck ↦ absurd (
            omega
              (arith, taken→total rows n (length rows) stuck, total-le rows n (suc (length rows))))
        | inr free ↦ free
      ]
