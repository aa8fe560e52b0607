-- ===== src/Bus/Delivery.antt =====
-- What a subscriber of the in-memory bus (app/core/queue_service.py) is sent.
use scales_infrastructure.Prelude.{
  ℕ, ◌≤◌, ◌≡◌, refl, sym, ap, ◌∙◌, Bool, true, false, not, Option, none, some, List, [], ◌∷◌, ◌++◌,
  ◌==◌, ltb, length, every, count, count-append, ==_iff, Bool-cases, Option-cases, inl, inr,
  if◌then◌else◌, arith,
}
use mathlib.Core.List.{append-nil, append_assoc}
use scales_infrastructure.Bus.{
  Subscriber, max_size, subscribe, unsubscribe, publish, waiting_of, take_one, get, Step,
  subscribes, unsubscribes, publishes, gets, step, run, from_get, yielded, received, published,
}

module _ (q : ℕ) where
  -- How many subscribers have the queue `q`.
  abbrev pub on_bus : List Subscriber → ℕ
  on_bus = count (λ (s : Subscriber). s.id == q)

  -- Neither subscribes nor unsubscribes the queue `q`.
  abbrev pub leaves : Step → Bool
  leaves (subscribes k) = not (k == q)
  leaves (unsubscribes k) = not (k == q)
  leaves _ = true

  waiting_of-subscribe :
      (k : ℕ)
      → (k == q) ≡ false
      → (bus : List Subscriber) → waiting_of q (subscribe k bus) ≡ waiting_of q bus
  unfolding subscribe
  waiting_of-subscribe k h [] = ground (arith, h)
  waiting_of-subscribe k h (s ∷ bus) = ground (arith, waiting_of-subscribe k h bus)

  on_bus-subscribe :
      (k : ℕ) → (k == q) ≡ false → (bus : List Subscriber) → on_bus (subscribe k bus) ≡ on_bus bus
  unfolding subscribe
  on_bus-subscribe k h bus = ground (
    arith,
    h,
    count-append (λ (s : Subscriber). s.id == q) bus (record { id = k; waiting = [] } ∷ []),
  )

  waiting_of-unsubscribe :
      (k : ℕ)
      → (k == q) ≡ false
      → (bus : List Subscriber) → waiting_of q (unsubscribe k bus) ≡ waiting_of q bus
  unfolding unsubscribe
  waiting_of-unsubscribe k h [] = refl
  waiting_of-unsubscribe k h (s ∷ bus) = ground (arith, h, waiting_of-unsubscribe k h bus)

  on_bus-unsubscribe : (k : ℕ) (bus : List Subscriber) → on_bus (unsubscribe k bus) ≤ on_bus bus
  unfolding unsubscribe
  on_bus-unsubscribe k [] = omega arith
  on_bus-unsubscribe k (s ∷ bus) = ground (arith, on_bus-unsubscribe k bus)

  on_bus-publish : (p : ℕ) (bus : List Subscriber) → on_bus (publish p bus) ≤ on_bus bus
  unfolding publish
  on_bus-publish p [] = omega arith
  on_bus-publish p (s ∷ bus) = ground (arith, on_bus-publish p bus)

  on_bus-get : (k : ℕ) (bus : List Subscriber) → on_bus (get k bus).1 ≡ on_bus bus
  unfolding get
  on_bus-get k [] = refl
  on_bus-get k (s ∷ bus) = ground (arith, on_bus-get k bus)

  on_bus-none : (bus : List Subscriber) → on_bus bus ≡ 0 → waiting_of q bus ≡ none
  on_bus-none [] h = refl
  on_bus-none (s ∷ bus) h = ground (arith, on_bus-none bus)

  waiting_of-none : (bus : List Subscriber) → waiting_of q bus ≡ none → on_bus bus ≡ 0
  waiting_of-none [] h = refl
  waiting_of-none (s ∷ bus) h = ground (arith, waiting_of-none bus)

  -- A payload reaches a queue that has room, and the one that is full is dropped.
  waiting_of-publish :
      (p : ℕ) (bus : List Subscriber) (w : List ℕ)
      → on_bus bus ≤ 1
      → waiting_of q bus ≡ some w
      → waiting_of q (publish p bus)
        ≡ (if ltb (length w) max_size then some (w ++ p ∷ []) else none)
  unfolding publish
  waiting_of-publish p [] w u h = absurd (ground arith)
  waiting_of-publish p (s ∷ bus) w u h = elim (Bool-cases (s.id == q)) [
    | inl hit ↦
        let gone : waiting_of q (publish p bus) ≡ none =
          on_bus-none (publish p bus) (ground (arith, hit, u, on_bus-publish p bus)) in
        ground (arith, hit, h, gone)
    | inr miss ↦ ground (arith, miss, waiting_of-publish p bus w)
  ]

  waiting_of-get :
      (k : ℕ) (bus : List Subscriber) (w : List ℕ)
      → waiting_of q bus ≡ some w
      → waiting_of q (get k bus).1 ≡ some (if q == k then (take_one w).1 else w)
  unfolding get
  waiting_of-get k [] w h = absurd (ground arith)
  waiting_of-get k (s ∷ bus) w h = ground (arith, waiting_of-get k bus w)

  get-waiting_of :
      (bus : List Subscriber) (w : List ℕ)
      → waiting_of q bus ≡ some w
      → (get q bus).0 ≡ (take_one w).0
  unfolding get
  get-waiting_of [] w h = absurd (ground arith)
  get-waiting_of (s ∷ bus) w h = ground (arith, get-waiting_of bus w)

  take_one-append : (w : List ℕ) → from_get q q (take_one w).0 ++ (take_one w).1 ≡ w
  take_one-append [] = refl
  take_one-append (p ∷ ps) = ground arith

  from_other : (k : ℕ) → (q == k) ≡ false → (o : Option ℕ) → from_get q k o ≡ []
  from_other k h none = refl
  from_other k h (some p) = ground (arith, h)

  after_step : Step → List ℕ → Option (List ℕ)
  after_step (publishes p) w = if ltb (length w) max_size then some (w ++ p ∷ []) else none
  after_step (gets k) w = some (if q == k then (take_one w).1 else w)
  after_step _ w = some w

  waiting_of-step :
      (x : Step) (bus : List Subscriber) (w : List ℕ)
      → leaves x ≡ true
      → on_bus bus ≤ 1
      → waiting_of q bus ≡ some w
      → waiting_of q (step x bus) ≡ after_step x w
  unfolding step after_step
  waiting_of-step (subscribes k) bus w l u h = waiting_of-subscribe k (ground (arith, l)) bus ∙ h
  waiting_of-step (unsubscribes k) bus w l u h =
      waiting_of-unsubscribe k (ground (arith, l)) bus ∙ h
  waiting_of-step (publishes p) bus w l u h = waiting_of-publish p bus w u h
  waiting_of-step (gets k) bus w l u h = waiting_of-get k bus w h

  on_bus-step :
      (x : Step) (bus : List Subscriber) → leaves x ≡ true → on_bus (step x bus) ≤ on_bus bus
  unfolding step
  on_bus-step (subscribes k) bus l = omega (arith, on_bus-subscribe k (ground (arith, l)) bus)
  on_bus-step (unsubscribes k) bus l = on_bus-unsubscribe k bus
  on_bus-step (publishes p) bus l = on_bus-publish p bus
  on_bus-step (gets k) bus l = omega (arith, on_bus-get k bus)

  step-balance :
      (x : Step) (bus : List Subscriber) (w w' : List ℕ)
      → waiting_of q bus ≡ some w
      → after_step x w ≡ some w'
      → yielded q x bus ++ w' ≡ w ++ published (x ∷ [])
  unfolding after_step published
  step-balance (subscribes k) bus w w' h e = ground (arith, append-nil w)
  step-balance (unsubscribes k) bus w w' h e = ground (arith, append-nil w)
  step-balance (publishes p) bus w w' h e = ground arith
  step-balance (gets k) bus w w' h e = elim (Bool-cases (q == k)) [
    | inl hit ↦
        ground (arith, hit, e, append-nil w, get-waiting_of bus w h, take_one-append w, ==_iff q k)
    | inr miss ↦ ground (arith, miss, e, append-nil w, from_other k miss (get k bus).0)
  ]

  run-gone :
      (xs : List Step) (bus : List Subscriber)
      → every leaves xs ≡ true
      → on_bus bus ≡ 0
      → waiting_of q (run xs bus) ≡ none
  unfolding run
  run-gone [] bus l h = on_bus-none bus h
  run-gone (x ∷ xs) bus l h =
      run-gone xs (step x bus) (ground (arith, l)) (ground (arith, l, on_bus-step x bus))

  published-cons :
      (x : Step) (xs : List Step) → published (x ∷ xs) ≡ published (x ∷ []) ++ published xs
  unfolding published
  published-cons (subscribes k) xs = refl
  published-cons (unsubscribes k) xs = refl
  published-cons (publishes p) xs = refl
  published-cons (gets k) xs = refl

  run-balance :
      (xs : List Step) (bus : List Subscriber) (w w' : List ℕ)
      → every leaves xs ≡ true
      → on_bus bus ≤ 1
      → waiting_of q bus ≡ some w
      → waiting_of q (run xs bus) ≡ some w'
      → received q xs bus ++ w' ≡ w ++ published xs
  unfolding run received published
  run-balance [] bus w w' l u h e = ground (arith, h, e, append-nil w)
  run-balance (x ∷ xs) bus w w' l u h e = elim (Option-cases (after_step x w)) [
    | inl dropped ↦ absurd (ground (arith, e, lost dropped))
    | inr (w1, kept) ↦
        let ih =
          run-balance xs (step x bus) w1 w' (ground (arith, l)) (omega (arith, fewer)) (next ∙ kept)
            e in
        append_assoc (yielded q x bus) (received q xs (step x bus)) w'
        ∙ ap (λ z. yielded q x bus ++ z) ih
        ∙ sym (append_assoc (yielded q x bus) w1 (published xs))
        ∙ ap (λ z. z ++ published xs) (step-balance x bus w w1 h kept)
        ∙ append_assoc w (published (x ∷ [])) (published xs)
        ∙ ap (λ z. w ++ z) (sym (published-cons x xs))
  ]
    where
      stays : leaves x ≡ true
      stays = ground (arith, l)

      next : waiting_of q (step x bus) ≡ after_step x w
      next = waiting_of-step x bus w stays u h

      fewer : on_bus (step x bus) ≤ on_bus bus
      fewer = on_bus-step x bus stays

      lost : after_step x w ≡ none → waiting_of q (run xs (step x bus)) ≡ none
      lost dropped =
          run-gone xs (step x bus) (ground (arith, l))
            (waiting_of-none (step x bus) (next ∙ dropped))

-- A subscriber that is on the bus at the end of a run, and does not leave and return in it, has
-- missed nothing: what its queue yielded, with what still waits there, is what waited there at
-- first and then everything published, in order. Its queue is on the bus once.
pub received-published :
    (q : ℕ) (xs : List Step) (bus : List Subscriber) (w w' : List ℕ)
    → every (leaves q) xs ≡ true
    → on_bus q bus ≤ 1
    → waiting_of q bus ≡ some w
    → waiting_of q (run xs bus) ≡ some w'
    → received q xs bus ++ w' ≡ w ++ published xs
received-published q xs bus w w' l u h e = run-balance q xs bus w w' l u h e
