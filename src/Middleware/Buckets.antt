-- ===== src/Middleware/Buckets.antt =====
-- The dict of buckets of app/middleware/security.py, and the purge of a bucket.
use scales_infrastructure.Prelude.{
  ℕ, ◌≤◌, ◌<◌, ◌≡◌, refl, Bool, true, false, List, [], ◌∷◌, leb, count, All, Bool-cases, inl, inr,
  if◌then◌else◌, arith,
}
use scales_infrastructure.Middleware.{
  Settings, Request, Identity, ip, Key, same_identity, same_flag, same_key, Buckets, bucket_at,
  set_bucket, purge, limit_for, key_of, request_limit,
}

same_flag_refl : (b : Bool) → same_flag b b ≡ true
same_flag_refl true = refl
same_flag_refl false = refl

same_identity_refl : (i : Identity) → same_identity i i ≡ true
same_identity_refl i = ground arith

same_key_refl : (k : Key) → same_key k k ≡ true
unfolding same_key
same_key_refl k = rw (same_identity_refl k.identity) (same_flag_refl k.reads)

same_identity→eq : (i j : Identity) → same_identity i j ≡ true → i ≡ j
same_identity→eq i j h = ground arith

same_flag→eq : (a b : Bool) → same_flag a b ≡ true → a ≡ b
same_flag→eq a b h = ground arith

pub same_key→eq : (j k : Key) → same_key j k ≡ true → j ≡ k
unfolding same_key
same_key→eq j k h =
    let i : j.identity ≡ k.identity = same_identity→eq j.identity k.identity (ground arith) in
    let f : j.reads ≡ k.reads = same_flag→eq j.reads k.reads (ground arith) in
    λ t. record { identity = i t; reads = f t }

module _ (k j : Key) (b : List ℕ) where
  pub bucket_at-set_bucket :
      (bs : Buckets)
      → bucket_at k (set_bucket j b bs) ≡ (if same_key j k then b else bucket_at k bs)
  unfolding bucket_at set_bucket
  bucket_at-set_bucket [] = refl
  bucket_at-set_bucket ((i, c) ∷ bs) = elim (Bool-cases (same_key i j)) [
    | inl hit ↦ ground (arith, hit, same_key→eq i j hit)
    | inr miss ↦ ground (arith, miss, same_key→eq i k, same_key→eq j k, bucket_at-set_bucket bs)
  ]

-- The limit of the bucket with this key.
abbrev pub key_limit : Settings → Key → ℕ
key_limit cfg k = elim k.identity [
  | ip a ↦ cfg.rate_limit_unauthed_requests
  | _ ↦ if k.reads then cfg.rate_limit_read_requests else cfg.rate_limit_requests
]

pub request_limit-key_limit :
    (cfg : Settings) (sha256 : ℕ → ℕ) (r : Request)
    → request_limit cfg r ≡ key_limit cfg (key_of sha256 r)
unfolding key_of limit_for request_limit
request_limit-key_limit cfg sha256 r = ground arith

pub purge-count :
    (cutoff c : ℕ) → cutoff ≤ c → (ts : List ℕ) → count (leb c) (purge cutoff ts) ≡ count (leb c) ts
unfolding purge
purge-count cutoff c h [] = refl
purge-count cutoff c h (t ∷ ts) = ground (arith, purge-count cutoff c h ts)

pub purge-late : (cutoff : ℕ) (ts : List ℕ) → All (λ t. t < cutoff) ts → purge cutoff ts ≡ []
unfolding purge
purge-late cutoff [] h = refl
purge-late cutoff (t ∷ ts) h = ground (arith, purge-late cutoff ts h.1)

pub purge-All : (P : ℕ → Type 0) (cutoff : ℕ) (ts : List ℕ) → All P ts → All P (purge cutoff ts)
unfolding purge
purge-All P cutoff [] h = tt
purge-All P cutoff (t ∷ ts) h = ground (arith, purge-All P cutoff ts h.1)

-- Readings of the clock that do not go back.
abbrev pub IsOrdered : ℕ → List (ℕ × Request) → Type 0
IsOrdered last [] = Unit
IsOrdered last ((now, r) ∷ rs) = (last ≤ now) × IsOrdered now rs
