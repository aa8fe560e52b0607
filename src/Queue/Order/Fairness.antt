-- ===== src/Queue/Order/Fairness.antt =====
-- What the orders of app/core/queue_service.py promise: no request is lost or doubled in any
-- mode, the sorted modes are sorted, and round robin takes the singers' songs in turn.
use scales_infrastructure.Prelude.{
  ℕ, zero, suc, ◌+◌, ◌≤◌, ◌≡◌, refl, sym, ap, ◌∙◌, Bool, true, Option, none, some, List, [], ◌∷◌,
  ◌++◌, map, length, get_elem?, count, count-append, sum_by, sum_by-sort, count-group_by, by_key,
  by_key_desc, lexi, sort, All, IsSorted, IsTotalPreorder, sort-IsSorted, by_key-IsTotalPreorder,
  by_key_desc-IsTotalPreorder, lexi-IsTotalPreorder, count-sort, group_by, concat_groups, arith,
}
use scales_infrastructure.Models.Tables.{QueueRequest, Singer}
use scales_infrastructure.Queue.Order.{
  Mode, fifo, vip_priority, balanced, round_robin, round_of, rounds, passes, ordered_groups,
  requested, interleave_by_singer, order_by_mode, by_activity, priority_weight,
}

module _ {ℓ} {A : Type ℓ} (p : A → Bool) where
  -- Elements meeting `p` in all the lists.
  abbrev pub total_count : List (List A) → ℕ
  total_count its = sum_by (λ it. count p it) its

  count-round_of :
      (its : List (List A))
      → count p (round_of its).0 + total_count (round_of its).1 ≡ total_count its
  unfolding round_of
  count-round_of [] = refl
  count-round_of ([] ∷ its) = ground (arith, count-round_of its)
  count-round_of ((x ∷ it) ∷ its) = ground (arith, count-round_of its)

  passes-round_of : (its : List (List A)) → passes (round_of its).1 + length its ≤ passes its
  unfolding round_of
  passes-round_of [] = omega arith
  passes-round_of ([] ∷ its) = ground (arith, passes-round_of its)
  passes-round_of ((x ∷ it) ∷ its) = ground (arith, passes-round_of its)

  -- With enough fuel the loop hands out every element of every list, once.
  pub count-rounds :
      (fuel : ℕ) (its : List (List A))
      → passes its ≤ fuel
      → count p (rounds fuel its) ≡ total_count its
  unfolding rounds
  count-rounds zero [] h = refl
  count-rounds zero (it ∷ its) h = absurd (omega arith)
  count-rounds (suc fuel) [] h = refl
  count-rounds (suc fuel) (it ∷ its) h =
      rw (count-append p (round_of (it ∷ its)).0 (rounds fuel (round_of (it ∷ its)).1)) (
        omega (
          arith,
          count-round_of (it ∷ its),
          count-rounds fuel (round_of (it ∷ its)).1 (omega (arith, passes-round_of (it ∷ its))),
        ))

  total_count-groups :
      (le : A → A → Bool) (gs : List (Option ℕ × List A))
      → total_count (map (λ (kg : Option ℕ × List A). sort le kg.1) gs) ≡ count p (concat_groups gs)
  total_count-groups le [] = refl
  total_count-groups le ((k, g) ∷ gs) =
      ground
        (arith, count-append p g (concat_groups gs), count-sort le p g, total_count-groups le gs)

-- Each request is in one of the groups.
pub total_count-ordered_groups :
    (p : QueueRequest → Bool) (items : List QueueRequest)
    → total_count p (ordered_groups items) ≡ count p items
unfolding ordered_groups
total_count-ordered_groups p items =
    sum_by-sort _ (count p) _
    ∙ total_count-groups p (by_key requested) (group_by (λ (r : QueueRequest). r.singer_id) items)
    ∙ count-group_by p (λ (r : QueueRequest). r.singer_id) items

-- The round-robin order keeps how many requests meet any condition: none is lost or doubled.
count-interleave_by_singer :
    (p : QueueRequest → Bool) (items : List QueueRequest)
    → count p (interleave_by_singer items) ≡ count p items
unfolding interleave_by_singer
count-interleave_by_singer p items =
    count-rounds p (passes (ordered_groups items)) (ordered_groups items) (omega arith)
    ∙ total_count-ordered_groups p items

-- In every mode the active queue holds exactly the venue's active rows: for any condition, as
-- many of them meet it as of the rows selected.
pub count-order_by_mode :
    (p : QueueRequest → Bool) (singers : List Singer) (mode : Mode) (items : List QueueRequest)
    → count p (order_by_mode singers mode items) ≡ count p items
unfolding order_by_mode
count-order_by_mode p singers fifo items = count-sort _ p items
count-order_by_mode p singers vip_priority items = count-sort _ p items
count-order_by_mode p singers balanced items = count-sort _ p items
count-order_by_mode p singers round_robin items = count-interleave_by_singer p items

-- The n-th elements of those lists that have one, in the order of the lists.
abbrev pub column {ℓ} : {A : Type ℓ} → ℕ → List (List A) → List A
column n [] = []
column n (it ∷ its) = elim (get_elem? it n) [ none ↦ column n its | some x ↦ x ∷ column n its ]

-- The columns n, n + 1, …, `k` of them.
abbrev pub in_turn {ℓ} : {A : Type ℓ} → ℕ → ℕ → List (List A) → List A
in_turn zero n its = []
in_turn (suc k) n its = column n its ++ in_turn k (suc n) its

module _ {ℓ} {A : Type ℓ} where
  column-zero : (its : List (List A)) → (round_of its).0 ≡ column 0 its
  unfolding round_of
  column-zero [] = refl
  column-zero ([] ∷ its) = column-zero its
  column-zero ((x ∷ it) ∷ its) = ap (λ l. x ∷ l) (column-zero its)

  column-suc : (n : ℕ) (its : List (List A)) → column n (round_of its).1 ≡ column (suc n) its
  unfolding round_of
  column-suc n [] = refl
  column-suc n ([] ∷ its) = column-suc n its
  column-suc n ((x ∷ it) ∷ its) = ground (arith, column-suc n its)

  in_turn-suc :
      (k n : ℕ) (its : List (List A)) → in_turn k n (round_of its).1 ≡ in_turn k (suc n) its
  in_turn-suc zero n its = refl
  in_turn-suc (suc k) n its = rw (column-suc n its, in_turn-suc k (suc n) its)

  in_turn-nil : (k n : ℕ) → in_turn {A = A} k n [] ≡ []
  in_turn-nil zero n = refl
  in_turn-nil (suc k) n = in_turn-nil k (suc n)

  pub rounds-eq-in_turn : (fuel : ℕ) (its : List (List A)) → rounds fuel its ≡ in_turn fuel 0 its
  unfolding rounds
  rounds-eq-in_turn zero its = refl
  rounds-eq-in_turn (suc fuel) [] = sym (in_turn-nil fuel 1)
  rounds-eq-in_turn (suc fuel) (it ∷ its) = rw (
    column-zero (it ∷ its),
    rounds-eq-in_turn fuel (round_of (it ∷ its)).1,
    in_turn-suc fuel 0 (it ∷ its),
  )

by_activity-IsTotalPreorder : (singers : List Singer) → IsTotalPreorder (by_activity singers)
by_activity-IsTotalPreorder singers = record {
  total = λ a b h. ground arith;
  trans = λ a b c h k. ground arith;
}

-- The comparison that a mode sorts by; round robin has none.
abbrev pub mode_order : List Singer → Mode → QueueRequest → QueueRequest → Bool
mode_order singers fifo = by_key requested
mode_order singers vip_priority = lexi (by_key_desc (priority_weight singers)) (by_key requested)
mode_order singers balanced = lexi (by_activity singers) (by_key requested)
mode_order singers round_robin = λ a b. true

-- In the sorted modes no request stands before one that it should follow: by time (fifo), by
-- priority weight from high to low and then time (vip_priority), by activity and then time
-- (balanced).
pub order_by_mode-IsSorted :
    (singers : List Singer) (mode : Mode) (items : List QueueRequest)
    → IsSorted (mode_order singers mode) (order_by_mode singers mode items)
unfolding order_by_mode
order_by_mode-IsSorted singers fifo items =
    sort-IsSorted (by_key requested) (by_key-IsTotalPreorder requested) items
order_by_mode-IsSorted singers vip_priority items =
    sort-IsSorted _
      (lexi-IsTotalPreorder _ _ (by_key_desc-IsTotalPreorder (priority_weight singers))
        (by_key-IsTotalPreorder requested))
      items
order_by_mode-IsSorted singers balanced items =
    sort-IsSorted _
      (lexi-IsTotalPreorder _ _ (by_activity-IsTotalPreorder singers)
        (by_key-IsTotalPreorder requested))
      items
order_by_mode-IsSorted singers round_robin items = all_sorted (interleave_by_singer items)
  where
    everything : (r : QueueRequest) (l : List QueueRequest) → All (λ y. true ≡ true) l
    everything r [] = tt
    everything r (x ∷ l) = (refl, everything r l)

    all_sorted : (l : List QueueRequest) → IsSorted (λ a b. true) l
    all_sorted [] = tt
    all_sorted (x ∷ l) = (everything x l, all_sorted l)
