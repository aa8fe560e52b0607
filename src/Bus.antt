-- ===== src/Bus.antt =====
-- InMemoryEventBus (app/core/queue_service.py): the fan-out of a venue's events where Redis and the
-- gateway are absent. A subscriber's `asyncio.Queue` is the list of what waits in it; payloads and
-- the identities of the queues are numbers.
pub mod Delivery
use scales_infrastructure.Prelude.{
  ℕ, ◌+◌, ◌≤◌, ◌<◌, ◌≡◌, refl, sym, ap, ◌∙◌, subst, Bool, true, false, not, ◌&&◌, ◌||◌, Option,
  none, some, List, [], ◌∷◌, ◌++◌, ◌==◌, ltb, length, length-append, All, select, Bool-cases, inl,
  inr, if◌then◌else◌, arith,
}

pub record Subscriber : Type 0 where
  pub id : ℕ
  pub waiting : List ℕ

abbrev pub max_size : ℕ
max_size = 256

-- `subscribe`: a new queue, which no subscriber has.
unfoldable pub subscribe : ℕ → List Subscriber → List Subscriber
subscribe q bus = bus ++ record { id = q; waiting = [] } ∷ []

-- `unsubscribe`
unfoldable pub unsubscribe : ℕ → List Subscriber → List Subscriber
unsubscribe q bus = select (λ (s : Subscriber). not (s.id == q)) bus

-- `put_nowait`, where the queue has room
abbrev pub has_room : Subscriber → Bool
has_room s = ltb (length s.waiting) max_size

abbrev pub put : ℕ → Subscriber → Subscriber
put payload s = record s { waiting = s.waiting ++ payload ∷ [] }

-- `publish`: the queues that are full are dropped.
unfoldable pub publish : ℕ → List Subscriber → List Subscriber
publish payload [] = []
publish payload (s ∷ bus) =
    let rest = publish payload bus in if has_room s then put payload s ∷ rest else rest

-- `queue.get()` of a subscriber on the bus; an empty queue makes it wait, and yields nothing.
abbrev pub take_one : List ℕ → Option ℕ × List ℕ
take_one [] = (none, [])
take_one (p ∷ ps) = (some p, ps)

abbrev pub waiting_of : ℕ → List Subscriber → Option (List ℕ)
waiting_of q [] = none
waiting_of q (s ∷ bus) = if s.id == q then some s.waiting else waiting_of q bus

unfoldable pub get : ℕ → List Subscriber → Option ℕ × List Subscriber
get q [] = (none, [])
get q (s ∷ bus) =
    let (p, rest) = get q bus in
    if s.id == q
    then ((take_one s.waiting).0, record s { waiting = (take_one s.waiting).1 } ∷ bus)
    else (p, s ∷ rest)

pub data Step : Type 0 where
  subscribes unsubscribes publishes gets : ℕ → Step

unfoldable pub step : Step → List Subscriber → List Subscriber
unfolding subscribe unsubscribe publish get
step (subscribes q) bus = subscribe q bus
step (unsubscribes q) bus = unsubscribe q bus
step (publishes p) bus = publish p bus
step (gets q) bus = (get q bus).1

unfoldable pub run : List Step → List Subscriber → List Subscriber
unfolding step
run [] bus = bus
run (x ∷ xs) bus = run xs (step x bus)

-- What the queue `q` yields in a run.
abbrev pub from_get : ℕ → ℕ → Option ℕ → List ℕ
from_get q k none = []
from_get q k (some p) = if q == k then p ∷ [] else []

abbrev pub yielded : ℕ → Step → List Subscriber → List ℕ
yielded q (gets k) bus = from_get q k (get k bus).0
yielded q _ bus = []

unfoldable pub received : ℕ → List Step → List Subscriber → List ℕ
unfolding step get
received q [] bus = []
received q (x ∷ xs) bus = yielded q x bus ++ received q xs (step x bus)

-- What is published in a run.
unfoldable pub published : List Step → List ℕ
published [] = []
published (publishes p ∷ xs) = p ∷ published xs
published (_ ∷ xs) = published xs
