-- ===== src/Prelude/Sorting.antt =====
-- Python's `sorted`, `list.sort` and SQL's ORDER BY: a stable sort by a Boolean comparison.
use Prim.Native.Nat.{ℕ, ◌+◌}
use mathlib.Core.Path.{◌≡◌, refl, subst}
use mathlib.Core.Logic.{inl, inr}
use mathlib.Core.Bool.{Bool, true, false, not, ◌&&◌, ◌||◌}
use mathlib.Core.Option.{Option, none, some}
use mathlib.Core.List.{List, [], ◌∷◌}
use native.Mathlib.Omega.{arith}
use scales_infrastructure.Prelude.Tests.{leb, if◌then◌else◌, Bool-cases}
use scales_infrastructure.Prelude.Lists.{length, first, sum_by, count, select, All, All-imp}

-- What a sort needs of its comparison: any two are comparable, and the order is transitive.
pub record IsTotalPreorder {ℓ} {A : Type ℓ} (le : A → A → Bool) : Type ℓ where
  pub total : (a b : A) → le a b ≡ false → le b a ≡ true
  pub trans : (a b c : A) → le a b ≡ true → le b c ≡ true → le a c ≡ true

-- Ascending by a nullable column; NULL comes last.
abbrev pub nulls_last : Option ℕ → Option ℕ → Bool
nulls_last _ none = true
nulls_last none (some _) = false
nulls_last (some a) (some b) = leb a b

module _ {ℓ} {A : Type ℓ} where
  -- Ascending and descending by a numeric key.
  abbrev pub by_key : (A → ℕ) → A → A → Bool
  by_key f a b = leb (f a) (f b)

  abbrev pub by_key_desc : (A → ℕ) → A → A → Bool
  by_key_desc f a b = leb (f b) (f a)

  abbrev pub by_column : (A → Option ℕ) → A → A → Bool
  by_column f a b = nulls_last (f a) (f b)

  -- Descending by a nullable column; NULL comes first.
  abbrev pub by_column_desc : (A → Option ℕ) → A → A → Bool
  by_column_desc f a b = nulls_last (f b) (f a)

  -- The first comparison decides; the second breaks its ties.
  abbrev pub lexi : (A → A → Bool) → (A → A → Bool) → A → A → Bool
  lexi le le' a b = le a b && (not (le b a) || le' a b)

  pub by_key-IsTotalPreorder : (f : A → ℕ) → IsTotalPreorder (by_key f)
  by_key-IsTotalPreorder f = record {
    total = λ a b h. ground arith;
    trans = λ a b c h k. ground arith;
  }

  pub by_key_desc-IsTotalPreorder : (f : A → ℕ) → IsTotalPreorder (by_key_desc f)
  by_key_desc-IsTotalPreorder f = record {
    total = λ a b h. ground arith;
    trans = λ a b c h k. ground arith;
  }

  pub by_column-IsTotalPreorder : (f : A → Option ℕ) → IsTotalPreorder (by_column f)
  by_column-IsTotalPreorder f = record {
    total = λ a b h. ground arith;
    trans = λ a b c h k. ground arith;
  }

  pub by_column_desc-IsTotalPreorder : (f : A → Option ℕ) → IsTotalPreorder (by_column_desc f)
  by_column_desc-IsTotalPreorder f = record {
    total = λ a b h. ground arith;
    trans = λ a b c h k. ground arith;
  }

  pub lexi-IsTotalPreorder :
      (le le' : A → A → Bool)
      → IsTotalPreorder le
      → IsTotalPreorder le'
      → IsTotalPreorder (lexi le le')
  lexi-IsTotalPreorder le le' o o' = record {
    total = λ a b h. ground (arith, o.total a b, o.total b a, o'.total a b);
    trans =
        λ a b c h k. ground (arith, o.trans a b c, o'.trans a b c, o.trans c a b, o.trans b c a);
  }

module _ {ℓ} {A : Type ℓ} (le : A → A → Bool) where
  -- Places `x` before the first element that it does not exceed.
  abbrev pub insert_sorted : A → List A → List A
  insert_sorted x [] = x ∷ []
  insert_sorted x (y ∷ ys) = if le x y then x ∷ y ∷ ys else y ∷ insert_sorted x ys

  abbrev pub sort : List A → List A
  sort [] = []
  sort (x ∷ xs) = insert_sorted x (sort xs)

  -- Each element is below all that follow it.
  abbrev pub IsSorted : List A → Type 0
  IsSorted [] = Unit
  IsSorted (x ∷ xs) = All (λ y. le x y ≡ true) xs × IsSorted xs

  pub count-insert_sorted :
      (p : A → Bool) (x : A) (xs : List A)
      → count p (insert_sorted x xs) ≡ (if p x then 1 else 0) + count p xs
  count-insert_sorted p x [] = refl
  count-insert_sorted p x (y ∷ ys) = ground (arith, count-insert_sorted p x ys)

  -- A sort keeps how many elements meet any condition: it loses and invents nothing.
  pub count-sort : (p : A → Bool) (xs : List A) → count p (sort xs) ≡ count p xs
  count-sort p [] = refl
  count-sort p (x ∷ xs) = ground (arith, count-insert_sorted p x (sort xs), count-sort p xs)

  pub sum_by-insert_sorted :
      (f : A → ℕ) (x : A) (xs : List A) → sum_by f (insert_sorted x xs) ≡ f x + sum_by f xs
  sum_by-insert_sorted f x [] = refl
  sum_by-insert_sorted f x (y ∷ ys) = ground (arith, sum_by-insert_sorted f x ys)

  pub sum_by-sort : (f : A → ℕ) (xs : List A) → sum_by f (sort xs) ≡ sum_by f xs
  sum_by-sort f [] = refl
  sum_by-sort f (x ∷ xs) = omega (arith, sum_by-insert_sorted f x (sort xs), sum_by-sort f xs)

  pub length-insert_sorted : (x : A) (xs : List A) → length (insert_sorted x xs) ≡ length xs + 1
  length-insert_sorted x [] = omega arith
  length-insert_sorted x (y ∷ ys) = ground (arith, length-insert_sorted x ys)

  pub length-sort : (xs : List A) → length (sort xs) ≡ length xs
  length-sort [] = refl
  length-sort (x ∷ xs) = ground (arith, length-insert_sorted x (sort xs), length-sort xs)

  pub All-insert_sorted {κ} :
      (P : A → Type κ) (x : A) (xs : List A) → P x → All P xs → All P (insert_sorted x xs)
  All-insert_sorted P x [] h hs = (h, tt)
  All-insert_sorted P x (y ∷ ys) h hs = ground (arith, All-insert_sorted P x ys h hs.1)

  pub All-sort {κ} : (P : A → Type κ) (xs : List A) → All P xs → All P (sort xs)
  All-sort P [] h = tt
  All-sort P (x ∷ xs) h = All-insert_sorted P x (sort xs) h.0 (All-sort P xs h.1)

module _ {ℓ} {A : Type ℓ} (le : A → A → Bool) (o : IsTotalPreorder le) where
  insert_sorted-IsSorted :
      (x : A) (xs : List A) → IsSorted le xs → IsSorted le (insert_sorted le x xs)
  insert_sorted-IsSorted x [] h = (tt, tt)
  insert_sorted-IsSorted x (y ∷ ys) h = elim (Bool-cases (le x y)) [
    | inl below ↦ rw below ((below, All-imp _ _ (λ z. o.trans x y z below) ys h.0), h)
    | inr above ↦ rw above (
      All-insert_sorted le (λ z. le y z ≡ true) x ys (o.total x y above) h.0,
      insert_sorted-IsSorted x ys h.1,
    )
  ]

  pub sort-IsSorted : (xs : List A) → IsSorted le (sort le xs)
  sort-IsSorted [] = tt
  sort-IsSorted (x ∷ xs) = insert_sorted-IsSorted x (sort le xs) (sort-IsSorted xs)

  -- The head of a sorted list is least: what ORDER BY … LIMIT 1 returns.
  pub first-sort-least :
      (xs : List A) (a : A) → first (sort le xs) ≡ some a → All (λ y. le a y ≡ true) (sort le xs)
  first-sort-least xs a h = least (sort le xs) (sort-IsSorted xs) h
    where
      least : (ys : List A) → IsSorted le ys → first ys ≡ some a → All (λ y. le a y ≡ true) ys
      least [] s e = tt
      least (y ∷ ys) s e =
          let q : y ≡ a = cc in
          subst (λ z. All (λ w. le z w ≡ true) (y ∷ ys)) q (ground (arith, o.total y y), s.0)

module _ {ℓ} {A : Type ℓ} (le : A → A → Bool) (p : A → Bool)
    (tied : (a b : A) → p a ≡ true → p b ≡ true → le a b ≡ true) where
  select-insert_sorted :
      (x : A) (ys : List A)
      → select p (insert_sorted le x ys) ≡ (if p x then x ∷ select p ys else select p ys)
  select-insert_sorted x [] = refl
  select-insert_sorted x (y ∷ ys) = ground (arith, tied x y, select-insert_sorted x ys)

  -- Stability: elements that the order does not tell apart keep their places to one another.
  pub select-sort : (xs : List A) → select p (sort le xs) ≡ select p xs
  select-sort [] = refl
  select-sort (x ∷ xs) = ground (arith, select-insert_sorted x (sort le xs), select-sort xs)
