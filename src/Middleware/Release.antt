-- ===== src/Middleware/Release.antt =====
-- When the rate limit of app/middleware/security.py lets a caller through again.
use scales_infrastructure.Prelude.{
  ℕ, ◌+◌, ◌-◌, ◌≤◌, ◌<◌, ◌≡◌, refl, Bool, true, false, List, [], ◌∷◌, ◌++◌, All, All-append,
  All-imp, Bool-cases, inl, inr, arith,
}
use scales_infrastructure.Middleware.{
  Settings, Request, Key, same_key, Buckets, bucket_at, purge, admitted, settle, is_exempt, key_of,
  request_limit, dispatch,
}
use scales_infrastructure.Middleware.Buckets.{
  bucket_at-set_bucket, purge-late, purge-All, IsOrdered,
}

-- The buckets after a run.
unfoldable pub run : Settings → (ℕ → ℕ) → List (ℕ × Request) → Buckets → Buckets
run cfg sha256 [] bs = bs
run cfg sha256 ((now, r) ∷ rs) bs = run cfg sha256 rs (dispatch cfg sha256 now r bs).1

-- The time of the last request of a run.
abbrev pub last_time : ℕ → List (ℕ × Request) → ℕ
last_time last [] = last
last_time last ((now, r) ∷ rs) = last_time now rs

-- No bucket holds a time of the future.
abbrev IsPast : ℕ → Buckets → Type 0
IsPast last bs = (k : Key) → All (λ t. t ≤ last) (bucket_at k bs)

module _ (cfg : Settings) (sha256 : ℕ → ℕ) where
  settle-IsPast :
      (now : ℕ) (key : Key) (bucket : List ℕ) (bs : Buckets)
      → All (λ t. t ≤ now) bucket
      → IsPast now bs
      → (full : Bool) → IsPast now (settle cfg.rate_limit_window now key bucket bs full).1
  settle-IsPast now key bucket bs hb h true k =
      rw (bucket_at-set_bucket k key bucket bs)
        (elim (Bool-cases (same_key key k)) [ inl hit ↦ rw hit hb | inr miss ↦ rw miss (h k) ])
  settle-IsPast now key bucket bs hb h false k =
      rw (bucket_at-set_bucket k key (bucket ++ now ∷ []) bs) (elim (Bool-cases (same_key key k)) [
        | inl hit ↦ rw hit (All-append _ bucket (now ∷ []) hb (omega arith, tt))
        | inr miss ↦ rw miss (h k)
      ])

  dispatch-IsPast :
      (last now : ℕ) (r : Request) (bs : Buckets)
      → last ≤ now
      → IsPast last bs
      → IsPast now (dispatch cfg sha256 now r bs).1
  unfolding dispatch
  dispatch-IsPast last now r bs le h = elim (Bool-cases (is_exempt r.path)) [
    | inl e ↦ rw e later
    | inr e ↦ rw e (
        settle-IsPast now (key_of sha256 r) _ bs
          (purge-All (λ t. t ≤ now) (now - cfg.rate_limit_window) _ (later (key_of sha256 r))) later
          _)
  ]
    where
      later : IsPast now bs
      later k = All-imp _ _ (λ t l. omega arith) (bucket_at k bs) (h k)

  run-IsPast :
      (last : ℕ) (rs : List (ℕ × Request)) (bs : Buckets)
      → IsOrdered last rs
      → IsPast last bs
      → IsPast (last_time last rs) (run cfg sha256 rs bs)
  unfolding run
  run-IsPast last [] bs o h = h
  run-IsPast last ((now, r) ∷ rs) bs o h =
      run-IsPast now rs (dispatch cfg sha256 now r bs).1 o.1 (dispatch-IsPast last now r bs o.0 h)

-- Nobody is shut out for good: once more than the window has passed since the last request of a
-- run from empty buckets, any request is let through. The clock is not to go back, and the limit
-- of the request is not to be 0.
pub dispatch-admitted :
    (cfg : Settings) (sha256 : ℕ → ℕ) (rs : List (ℕ × Request))
    → IsOrdered 0 rs
    → (now : ℕ) (r : Request) → last_time 0 rs + cfg.rate_limit_window < now
    → 1 ≤ request_limit cfg r
    → (dispatch cfg sha256 now r (run cfg sha256 rs [])).0 ≡ admitted
unfolding dispatch bucket_at
dispatch-admitted cfg sha256 rs o now r late room = elim (Bool-cases (is_exempt r.path)) [
  | inl e ↦ rw e refl
  | inr e ↦ rw e (rw empty (ground (arith, room)))
]
  where
    empty :
        purge (now - cfg.rate_limit_window) (bucket_at (key_of sha256 r) (run cfg sha256 rs []))
        ≡ []
    empty = purge-late _ _ (
        All-imp _ _ (λ t l. omega arith) _
          (run-IsPast cfg sha256 0 rs [] o (λ k. tt) (key_of sha256 r)))
