-- ===== src/Prelude/Grouping.antt =====
-- A dict of lists filled by `setdefault(key, []).append(x)`: its items, in order of first use.
use Prim.Native.Nat.{ℕ, ◌+◌, ◌<◌, max}
use mathlib.Core.Path.{◌≡◌, refl}
use mathlib.Core.Logic.{inl, inr}
use mathlib.Core.Bool.{Bool, true}
use mathlib.Core.Option.{Option}
use mathlib.Core.List.{List, [], ◌∷◌, ◌++◌}
use native.Mathlib.Omega.{arith}
use scales_infrastructure.Prelude.Tests.{same, same_refl, same→eq, Bool-cases, if◌then◌else◌}
use scales_infrastructure.Prelude.Lists.{
  length, length-append, All, All-append, any_of, count, count-append,
}

module _ {ℓ} {A : Type ℓ} where
  abbrev pub append_to : Option ℕ → A → List (Option ℕ × List A) → List (Option ℕ × List A)
  append_to k x [] = (k, x ∷ []) ∷ []
  append_to k x ((j, g) ∷ gs) =
      if same j k then (j, g ++ x ∷ []) ∷ gs else (j, g) ∷ append_to k x gs

  abbrev pub group_onto :
      (A → Option ℕ) → List (Option ℕ × List A) → List A → List (Option ℕ × List A)
  group_onto key gs [] = gs
  group_onto key gs (x ∷ xs) = group_onto key (append_to (key x) x gs) xs

  abbrev pub group_by : (A → Option ℕ) → List A → List (Option ℕ × List A)
  group_by key = group_onto key []

  -- The elements of all groups, in the order of the groups.
  abbrev pub concat_groups : List (Option ℕ × List A) → List A
  concat_groups [] = []
  concat_groups ((k, g) ∷ gs) = g ++ concat_groups gs

  -- `d[k]`, or the empty list
  abbrev pub group_at : Option ℕ → List (Option ℕ × List A) → List A
  group_at k [] = []
  group_at k ((j, g) ∷ gs) = if same j k then g else group_at k gs

module _ {ℓ} {A : Type ℓ} (p : A → Bool) where
  count-append_to :
      (k : Option ℕ) (x : A) (gs : List (Option ℕ × List A))
      → count p (concat_groups (append_to k x gs))
        ≡ (if p x then 1 else 0) + count p (concat_groups gs)
  count-append_to k x [] = refl
  count-append_to k x ((j, g) ∷ gs) = ground (
    arith,
    count-append p (g ++ x ∷ []) (concat_groups gs),
    count-append p g (x ∷ []),
    count-append p g (concat_groups gs),
    count-append p g (concat_groups (append_to k x gs)),
    count-append_to k x gs,
  )

  count-group_onto :
      (key : A → Option ℕ) (gs : List (Option ℕ × List A)) (xs : List A)
      → count p (concat_groups (group_onto key gs xs)) ≡ count p (concat_groups gs) + count p xs
  count-group_onto key gs [] = omega arith
  count-group_onto key gs (x ∷ xs) =
      omega (arith, count-group_onto key (append_to (key x) x gs) xs, count-append_to (key x) x gs)

  -- Grouping keeps every element.
  pub count-group_by :
      (key : A → Option ℕ) (xs : List A) → count p (concat_groups (group_by key xs)) ≡ count p xs
  count-group_by key xs = omega (arith, count-group_onto key [] xs)

-- Groups with the key `k`.
abbrev pub keys_count {ℓ} : {A : Type ℓ} → Option ℕ → List (Option ℕ × List A) → ℕ
keys_count k [] = 0
keys_count k ((j, g) ∷ gs) = (if same j k then 1 else 0) + keys_count k gs

-- Each group holds elements of its key, at least one.
abbrev pub IsKeyed {ℓ} : {A : Type ℓ} → (A → Option ℕ) → List (Option ℕ × List A) → Type ℓ
IsKeyed key [] = Unit
IsKeyed key ((k, g) ∷ gs) = All (λ x. same (key x) k ≡ true) g × (0 < length g) × IsKeyed key gs

module _ {ℓ} {A : Type ℓ} where
  keys_count-append_to :
      (k j : Option ℕ) (x : A) (gs : List (Option ℕ × List A))
      → keys_count k (append_to j x gs)
        ≡ (if same j k then max 1 (keys_count k gs) else keys_count k gs)
  keys_count-append_to k j x [] = ground arith
  keys_count-append_to k j x ((i, g) ∷ gs) = elim (Bool-cases (same i j)) [
    | inl hit ↦ rw hit (rw (same→eq i j hit) (ground arith))
    | inr miss ↦
        rw miss
          (ground (arith, keys_count-append_to k j x gs, same→eq i k, same→eq j k, same_refl k))
  ]

module _ {ℓ} {A : Type ℓ} (key : A → Option ℕ) where
  keys_count-group_onto :
      (k : Option ℕ) (gs : List (Option ℕ × List A)) (xs : List A)
      → keys_count k (group_onto key gs xs)
        ≡ (if any_of (λ x. same (key x) k) xs then max 1 (keys_count k gs) else keys_count k gs)
  keys_count-group_onto k gs [] = refl
  keys_count-group_onto k gs (x ∷ xs) = ground (
    arith,
    keys_count-group_onto k (append_to (key x) x gs) xs,
    keys_count-append_to k (key x) x gs,
  )

  -- There is one group for each key that occurs.
  pub keys_count-group_by :
      (k : Option ℕ) (xs : List A)
      → keys_count k (group_by key xs) ≡ (if any_of (λ x. same (key x) k) xs then 1 else 0)
  keys_count-group_by k xs = ground (arith, keys_count-group_onto k [] xs)

  append_to-IsKeyed :
      (x : A) (gs : List (Option ℕ × List A))
      → IsKeyed key gs
      → IsKeyed key (append_to (key x) x gs)
  append_to-IsKeyed x [] h = ((same_refl (key x), tt), omega arith, tt)
  append_to-IsKeyed x ((j, g) ∷ gs) h = elim (Bool-cases (same j (key x))) [
    | inl hit ↦ rw hit (
      All-append _ g (x ∷ []) h.0 (rw (same→eq j (key x) hit) (same_refl (key x)), tt),
      omega (arith, length-append g (x ∷ [])),
      h.2,
    )
    | inr miss ↦ rw miss (h.0, h.1, append_to-IsKeyed x gs h.2)
  ]

  pub group_onto-IsKeyed :
      (gs : List (Option ℕ × List A)) (xs : List A)
      → IsKeyed key gs
      → IsKeyed key (group_onto key gs xs)
  group_onto-IsKeyed gs [] h = h
  group_onto-IsKeyed gs (x ∷ xs) h =
      group_onto-IsKeyed (append_to (key x) x gs) xs (append_to-IsKeyed x gs h)
