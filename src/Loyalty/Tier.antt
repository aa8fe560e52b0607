-- ===== src/Loyalty/Tier.antt =====
-- The tier of a singer after an award (app/core/loyalty_service.py).
use scales_infrastructure.Prelude.{
  ℕ, ℤ, pos, ◌+ℤ◌, eqb_ℤ, leb_ℤ, ◌≡◌, refl, sym, ap, subst, ◌∙◌, Bool, true, false, Option, none,
  some, List, [], ◌∷◌, String, ◌==◌, get_or, find, first-sort-least, IsTotalPreorder, select, sort,
  insert_sorted, All, All-imp, All-select, All-select_of, All-sort, first, update_where, Bool-cases,
  inl, inr, if◌then◌else◌, arith,
}
use scales_infrastructure.Models.Tables.{ReferenceType, Singer, LoyaltyTier}
use scales_infrastructure.Models.Session.{Clock, Session, ◌>>=◌}
use scales_infrastructure.Points.Ledger.{shown_total}
use scales_infrastructure.Loyalty.{
  is_reached, highest_first, compute_tier, awarded, award_points, record_award, tier_or,
}

highest_first-IsTotalPreorder : IsTotalPreorder highest_first
highest_first-IsTotalPreorder = record {
  total = λ a b h. ground arith;
  trans = λ a b c h k. ground arith;
}

-- What holds of every element of a sorted list holds of the list.
module _ {A : Type 0} (le : A → A → Bool) (P : A → Type 0) where
  All-uninsert : (x : A) (xs : List A) → All P (insert_sorted le x xs) → P x × All P xs
  All-uninsert x [] h = h
  All-uninsert x (y ∷ ys) h = elim (Bool-cases (le x y)) [
    | inl below ↦
        subst (All P) (ap (λ b. if b then x ∷ y ∷ ys else y ∷ insert_sorted le x ys) below) h
    | inr above ↦
        let k : All P (y ∷ insert_sorted le x ys) =
          subst (All P) (ap (λ b. if b then x ∷ y ∷ ys else y ∷ insert_sorted le x ys) above) h in
        let (a, b) = All-uninsert x ys k.1 in (a, (k.0, b))
  ]

  All-unsort : (xs : List A) → All P (sort le xs) → All P xs
  All-unsort [] h = tt
  All-unsort (x ∷ xs) h = let (a, b) = All-uninsert x (sort le xs) h in (a, All-unsort xs b)

  All-unselect : (p : A → Bool) (xs : List A) → All P (select p xs) → All (λ x. p x ≡ true → P x) xs
  All-unselect p [] h = tt
  All-unselect p (x ∷ xs) h = elim (Bool-cases (p x)) [
    | inl hit ↦
        let k : All P (x ∷ select p xs) =
          subst (All P) (ap (λ b. if b then x ∷ select p xs else select p xs) hit) h in
        (λ e. k.0, All-unselect p xs k.1)
    | inr miss ↦ (
      λ e. absurd (ground (arith, e, miss)),
      All-unselect p xs
          (subst (All P) (ap (λ b. if b then x ∷ select p xs else select p xs) miss) h),
    )
  ]

-- The tier is one of the venue's that is in use, and the points reach it.
abbrev pub IsEligible : ℕ → ℤ → LoyaltyTier → Type 0
IsEligible v points u =
    (u.venue_id ≡ v)
    × (u.is_active ≡ 1)
    × (u.deleted_at ≡ none)
    × (leb_ℤ u.min_points points ≡ true)

-- The tier is eligible, none of the eligible tiers of the table is above it, and what holds of every
-- tier of the table holds of it.
pub record IsHighest (v : ℕ) (points : ℤ) (tier : LoyaltyTier) (tiers : List LoyaltyTier)
    : Type 0 where
  pub listed : (q : LoyaltyTier → Bool) → All (λ u. q u ≡ true) tiers → q tier ≡ true
  pub eligible : IsEligible v points tier
  pub highest : All (λ u. IsEligible v points u → leb_ℤ u.min_points tier.min_points ≡ true) tiers

is_reached-IsEligible :
    (v : ℕ) (points : ℤ) (u : LoyaltyTier) → is_reached v points u ≡ true → IsEligible v points u
is_reached-IsEligible v points u h =
    (ground (arith, h), ground (arith, h), ground (arith, h), ground (arith, h))

IsEligible-is_reached :
    (v : ℕ) (points : ℤ) (u : LoyaltyTier) → IsEligible v points u → is_reached v points u ≡ true
IsEligible-is_reached v points u h = rw (h.0, h.1, h.2, h.3) (ground arith)

first-All :
    (P : LoyaltyTier → Type 0) (us : List LoyaltyTier) (u : LoyaltyTier)
    → All P us
    → first us ≡ some u
    → P u
first-All P [] u h e = absurd (ground arith)
first-All P (x ∷ us) u h e = subst P (ground (arith, e)) h.0

compute_tier-IsHighest :
    (v : ℕ) (points : ℤ) (tiers : List LoyaltyTier) (tier : LoyaltyTier)
    → compute_tier v points tiers ≡ some tier
    → IsHighest v points tier tiers
unfolding compute_tier
compute_tier-IsHighest v points tiers tier h = record {
  listed = λ q all.
      first-All (λ u. q u ≡ true) _ tier
        (All-sort highest_first (λ u. q u ≡ true) _
          (All-select_of (λ u. q u ≡ true) (is_reached v points) tiers all))
        h;
  eligible = is_reached-IsEligible v points tier (
      first-All (λ u. is_reached v points u ≡ true) _ tier
        (All-sort highest_first (λ u. is_reached v points u ≡ true) _
          (All-select (is_reached v points) tiers))
        h);
  highest =
      All-imp _ _ (λ u g e. g (IsEligible-is_reached v points u e)) tiers
        (All-unselect highest_first _ (is_reached v points) tiers (
          All-unsort highest_first _ (select (is_reached v points) tiers) (
            first-sort-least highest_first highest_first-IsTotalPreorder
              (select (is_reached v points) tiers) tier h)));
}

find-updated :
    {A : Type 0} (p : A → Bool) (f : A → A)
    → ((r : A) → p (f r) ≡ p r)
    → (rows : List A) (r : A) → find p rows ≡ some r
    → find p (update_where p f rows) ≡ some (f r)
find-updated p f same [] r h = absurd (ground arith)
find-updated p f same (x ∷ rows) r h = elim (Bool-cases (p x)) [
  | inl hit ↦ ground (arith, hit, h, same x)
  | inr miss ↦ ground (arith, miss, h, find-updated p f same rows r)
]

-- The tier that the row of a singer shows.
abbrev pub tier_of : ℕ → List Singer → Option ℕ
tier_of k rows = elim (find (λ (r : Singer). r.id == k) rows) [
  | none ↦ none
  | some r ↦ r.loyalty_tier_id
]

-- An award that is not 0 moves the singer's points by its amount, durably, and where the new points
-- reach some tier it gives the singer one of the venue's tiers in use that they reach, and no such
-- tier is above it.
pub award_points-tier :
    (c : Clock) (v singer : ℕ) (amount : ℤ) (reason : String) (kind : Option ReferenceType)
    (ref : Option ℕ) (s : Session) (r : Singer) (tier : LoyaltyTier)
    → eqb_ℤ amount (pos 0) ≡ false
    → find (λ (r : Singer). r.id == singer) s.db.singers ≡ some r
    → compute_tier v (get_or r.total_points (pos 0) +ℤ amount) s.db.loyalty_tiers ≡ some tier
    → (let t' = (award_points c v singer amount reason kind ref s).1.committed in
        (shown_total singer t'.singers ≡ shown_total singer s.db.singers +ℤ amount)
        × (tier_of singer t'.singers ≡ some tier.id)
        × IsHighest v (get_or r.total_points (pos 0) +ℤ amount) tier s.db.loyalty_tiers)
unfolding award_points record_award ◌>>=◌
award_points-tier c v singer amount reason kind ref s r tier some_amount found reached =
    rw some_amount (
      ap shown after ∙ sym (ap (λ o. shown o +ℤ amount) found),
      ap tier_shown after ∙ ap (λ o. tier_or o r.loyalty_tier_id) reached,
      compute_tier-IsHighest v (get_or r.total_points (pos 0) +ℤ amount) s.db.loyalty_tiers tier
          reached,
    )
  where
    shown : Option Singer → ℤ
    shown none = pos 0
    shown (some q) = get_or q.total_points (pos 0)

    tier_shown : Option Singer → Option ℕ
    tier_shown none = none
    tier_shown (some q) = q.loyalty_tier_id

    after :
        find
          (λ (q : Singer). q.id == singer)
          (update_where
            (λ (q : Singer). q.id == singer)
            (awarded c.now v amount s.db.loyalty_tiers)
            s.db.singers)
        ≡ some (awarded c.now v amount s.db.loyalty_tiers r)
    after =
        find-updated _ (awarded c.now v amount s.db.loyalty_tiers) (λ q. refl) s.db.singers r found
