-- ===== src/Queues/Spsc/Race/Invariant.antt =====
-- include/novaio/concurrent_queues.hpp: what the producer and the consumer know of each other, between
-- any two steps.
use novaio.Prelude.{
  ℕ, ◌+◌, ◌%◌, ◌^◌, ◌≤◌, ◌<◌, ◌≡◌, refl, ◌≢◌, Option, some, List, [], ◌∷◌, ◌++◌, map, arith, length,
}
use novaio.Queues.Spsc.{SpscQueue}
use novaio.Queues.Spsc.Refine.{Holds}
use novaio.Queues.Spsc.Race.{
  Producer, idle, checking, writing, storing, Consumer, resting, testing, moving, destroying,
  leaving, Race, start,
}
use novaio.Queues.Spsc.Race.Slots.{tail_at}

module _ {ℓ} {A : Type ℓ} where
  -- what the consumer has taken and not yet given back the slot of
  abbrev pub in_flight : Consumer A → List (Option A)
  in_flight (leaving head out) = out ∷ []
  in_flight _ = []

  -- the head of the queue as if the consumer had done its store
  abbrev pub settled_head : Consumer A → ℕ → ℕ
  settled_head (leaving head out) h = (h + 1) % 2 ^ 64
  settled_head _ h = h

  -- What the producer knows, where `b` holds the items `xs`, all but the one that it is about to store,
  -- and `n` slots are in use.
  abbrev pub Produces : Producer A → SpscQueue A → SpscQueue A → ℕ → Type ℓ
  Produces idle q b n = (j : ℕ) → q.buffer j ≡ b.buffer j
  Produces (checking item tail) q b n = (tail ≡ q.tail) × ((j : ℕ) → q.buffer j ≡ b.buffer j)
  Produces (writing item tail) q b n =
      (tail ≡ q.tail) × (n < q.capacity) × ((j : ℕ) → q.buffer j ≡ b.buffer j)
  Produces (storing item tail) q b n =
      (tail ≡ q.tail)
      × (n < q.capacity)
      × (q.buffer (tail_at q) ≡ some item)
      × ((j : ℕ) → j ≢ tail_at q → q.buffer j ≡ b.buffer j)

  -- what the consumer knows
  abbrev pub Consumes : Consumer A → ℕ → List A → Type ℓ
  Consumes resting h xs = Unit {ℓ}
  Consumes (testing head) h xs = (head ≡ h) × Unit {ℓ}
  Consumes (moving head) h xs = (head ≡ h) × ((x : A) × (rest : List A) × (xs ≡ x ∷ rest))
  Consumes (destroying head out) h xs =
      (head ≡ h) × ((x : A) × (rest : List A) × (xs ≡ x ∷ rest) × (out ≡ some x))
  Consumes (leaving head out) h xs = (head ≡ h) × ((x : A) × (out ≡ some x))

  -- `settled` is the queue once the consumer has done its store, and before the producer has begun
  -- to write: it holds the items `items`.
  pub record Inv (s : Race A) : Type ℓ where
    pub settled : SpscQueue A
    pub items : List A
    pub holds : Holds settled items
    pub capacity_eq : settled.capacity ≡ s.queue.capacity
    pub mask_eq : settled.mask ≡ s.queue.mask
    pub tail_eq : settled.tail ≡ s.queue.tail
    pub head_eq : settled.head ≡ settled_head s.consumer s.queue.head
    pub head_lt : s.queue.head < 2 ^ 64
    pub fits : length items + length (in_flight s.consumer) ≤ s.queue.capacity
    pub produces :
        Produces s.producer s.queue settled (length items + length (in_flight s.consumer))
    pub consumes : Consumes s.consumer s.queue.head items
    pub history : map some s.pushed ≡ s.popped ++ in_flight s.consumer ++ map some items

  pub start-Inv : (q : SpscQueue A) → Holds q [] → Inv (start q)
  start-Inv q h = record {
    settled = q;
    items = [];
    holds = h;
    capacity_eq = refl;
    mask_eq = refl;
    tail_eq = refl;
    head_eq = refl;
    head_lt = h.shape.head_lt;
    fits = omega arith;
    produces = λ j. refl;
    consumes = tt;
    history = refl;
  }
