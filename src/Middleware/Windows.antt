-- ===== src/Middleware/Windows.antt =====
-- How many requests the rate limit of app/middleware/security.py lets through in a window.
use scales_infrastructure.Prelude.{
  ℕ, ◌+◌, ◌-◌, ◌≤◌, ◌<◌, ◌≡◌, refl, subst, Bool, true, false, not, ◌&&◌, List, [], ◌∷◌, ◌++◌, leb,
  length, count, count-append, count-imp, count-le-length, Bool-cases, inl, inr, if◌then◌else◌,
  arith,
}
use scales_infrastructure.Middleware.{
  Settings, Request, Key, same_key, Buckets, bucket_at, purge, Verdict, limited, admitted, settle,
  is_exempt, key_of, request_limit, dispatch,
}
use scales_infrastructure.Middleware.Buckets.{
  same_key→eq, bucket_at-set_bucket, key_limit, request_limit-key_limit, purge-count, IsOrdered,
}

-- A request whose bucket is charged for being let through.
abbrev pub is_charged : (ℕ → ℕ) → Key → Request → Verdict → Bool
is_charged sha256 k r admitted = not (is_exempt r.path) && same_key (key_of sha256 r) k
is_charged sha256 k r (limited n) = false

-- The times at which requests of the key are let through, exempt paths aside.
unfoldable pub admitted_times : Settings → (ℕ → ℕ) → Key → List (ℕ × Request) → Buckets → List ℕ
admitted_times cfg sha256 k [] bs = []
admitted_times cfg sha256 k ((now, r) ∷ rs) bs =
    let (v, bs') = dispatch cfg sha256 now r bs in
    let later = admitted_times cfg sha256 k rs bs' in
    if is_charged sha256 k r v then now ∷ later else later

abbrev pub in_window : ℕ → ℕ → ℕ → Bool
in_window window a t = leb a t && leb t (a + window)

module _ (cfg : Settings) (sha256 : ℕ → ℕ) (k : Key) where
  abbrev window : ℕ
  window = cfg.rate_limit_window

  -- The bucket `b` at the time `last`, after requests were let through at the times `h`.
  record IsWithin (last : ℕ) (h b : List ℕ) : Type 0 where
    kept : (c : ℕ) → last - window ≤ c → count (leb c) h ≤ count (leb c) b
    bound : (a : ℕ) → count (in_window window a) h ≤ key_limit cfg k

  later-IsWithin : (last now : ℕ) (h b : List ℕ) → last ≤ now → IsWithin last h b → IsWithin now h b
  later-IsWithin last now h b le w = record {
    kept = λ c l. w.kept c (omega arith);
    bound = w.bound;
  }

  purge-IsWithin :
      (now : ℕ) (h b : List ℕ) → IsWithin now h b → IsWithin now h (purge (now - window) b)
  purge-IsWithin now h b w = record {
    kept = λ c l. rw (purge-count (now - window) c l b) (w.kept c l);
    bound = w.bound;
  }

  admit-IsWithin :
      (now : ℕ) (h b : List ℕ)
      → length b < key_limit cfg k
      → IsWithin now h b
      → IsWithin now (now ∷ h) (b ++ now ∷ [])
  admit-IsWithin now h b room w = record {
    kept = λ c l. ground (arith, count-append (leb c) b (now ∷ []), w.kept c l);
    bound = λ a. elim (Bool-cases (in_window window a now)) [
      | inl hit ↦ ground (
        arith,
        count-imp (in_window window a) (leb a) (λ t. in_window-leb a t) h,
        w.kept a (starts a hit),
        count-le-length (leb a) b,
      )
      | inr miss ↦ ground (arith, miss, w.bound a)
    ];
  }
    where
      in_window-leb : (a t : ℕ) → in_window window a t ≡ true → leb a t ≡ true
      in_window-leb a t e = ground arith

      starts : (a : ℕ) → in_window window a now ≡ true → now - window ≤ a
      starts a e = ground arith

  abbrev charge : ℕ → Request → Verdict → List ℕ → List ℕ
  charge now r v h = if is_charged sha256 k r v then now ∷ h else h

  module _ (now : ℕ) (r : Request) (h : List ℕ) (bs : Buckets)
      (open_path : is_exempt r.path ≡ false) (w : IsWithin now h (bucket_at k bs)) where
    abbrev mine : Key
    mine = key_of sha256 r

    abbrev purged : List ℕ
    purged = purge (now - window) (bucket_at mine bs)

    settle-IsWithin :
        (full : Bool)
        → leb (request_limit cfg r) (length purged) ≡ full
        → (let (v, bs') = settle window now mine purged bs full in
            IsWithin now (charge now r v h) (bucket_at k bs'))
    settle-IsWithin true e =
        rw (bucket_at-set_bucket k mine purged bs) (elim (Bool-cases (same_key mine k)) [
          | inl hit ↦ rw (hit, same_key→eq mine k hit) (purge-IsWithin now h (bucket_at k bs) w)
          | inr miss ↦ rw miss w
        ])
    settle-IsWithin false e =
        rw (bucket_at-set_bucket k mine (purged ++ now ∷ []) bs, open_path)
          (elim (Bool-cases (same_key mine k)) [
            | inl hit ↦
                rw (hit, same_key→eq mine k hit)
                  (admit-IsWithin now h (purge (now - window) (bucket_at k bs))
                    (room (same_key→eq mine k hit)) (purge-IsWithin now h (bucket_at k bs) w))
            | inr miss ↦ rw miss w
          ])
      where
        room : mine ≡ k → length (purge (now - window) (bucket_at k bs)) < key_limit cfg k
        room q =
            subst (λ z. length (purge (now - window) (bucket_at z bs)) < key_limit cfg z) q
              (ground (arith, e, request_limit-key_limit cfg sha256 r))

  dispatch-IsWithin :
      (now : ℕ) (r : Request) (h : List ℕ) (bs : Buckets)
      → IsWithin now h (bucket_at k bs)
      → (let (v, bs') = dispatch cfg sha256 now r bs in
          IsWithin now (charge now r v h) (bucket_at k bs'))
  unfolding dispatch
  dispatch-IsWithin now r h bs w = elim (Bool-cases (is_exempt r.path)) [
    | inl e ↦ rw (e, e) w
    | inr e ↦ rw e (settle-IsWithin now r h bs e w _ refl)
  ]

  charged_run :
      (last : ℕ) (rs : List (ℕ × Request)) (h : List ℕ) (bs : Buckets)
      → IsOrdered last rs
      → IsWithin last h (bucket_at k bs)
      → (a : ℕ)
      → count (in_window window a) h
          + count (in_window window a) (admitted_times cfg sha256 k rs bs)
        ≤ key_limit cfg k
  unfolding admitted_times
  charged_run last [] h bs o w a = omega (arith, w.bound a)
  charged_run last ((now, r) ∷ rs) h bs o w a =
      let (v, bs') = dispatch cfg sha256 now r bs in
      let w' = dispatch-IsWithin now r h bs (later-IsWithin last now h (bucket_at k bs) o.0 w) in
      ground (arith, charged_run now rs (charge now r v h) bs' o.1 w' a)

-- No more requests of a key than its limit are let through in a window of time, wherever it
-- begins, in a run of requests from empty buckets; the clock is not to go back, and requests to
-- exempt paths are not counted.
pub admitted_times-bounded :
    (cfg : Settings) (sha256 : ℕ → ℕ) (k : Key) (rs : List (ℕ × Request))
    → IsOrdered 0 rs
    → (a : ℕ)
    → count (in_window cfg.rate_limit_window a) (admitted_times cfg sha256 k rs [])
      ≤ key_limit cfg k
unfolding bucket_at
admitted_times-bounded cfg sha256 k rs o a = omega (
  arith,
  charged_run cfg sha256 k 0 rs [] [] o
      (record { kept = λ c l. omega arith; bound = λ b. omega arith }) a,
)
