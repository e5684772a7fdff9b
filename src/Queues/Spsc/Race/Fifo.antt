-- ===== src/Queues/Spsc/Race/Fifo.antt =====
-- include/novaio/concurrent_queues.hpp: what holds of a producer and a consumer in any interleaving.
use novaio.Prelude.{
  ℕ, ◌≤◌, ◌<◌, bit_and, ◌≡◌, refl, sym, ap, ap₂, ◌∙◌, ◌≢◌, Option, none, some, List, [], ◌∷◌, ◌++◌,
  map, append_assoc, arith, length, length-append, length-map,
}
use novaio.Queues.Spsc.{SpscQueue}
use novaio.Queues.Spsc.Refine.{Holds}
use novaio.Queues.Spsc.Race.{
  Producer, idle, checking, writing, storing, Consumer, resting, testing, moving, destroying,
  leaving, Race, Step, push_begins, push_fails, push_passes, push_constructs, push_stores,
  pop_begins, pop_fails, pop_passes, pop_moves, pop_destroys, pop_stores, Reach, begins, moves,
}
use novaio.Queues.Spsc.Race.Slots.{tail_at, head_at, tail_raw}
use novaio.Queues.Spsc.Race.Pushing.{with_producer, known, passes-Inv, constructs-Inv, stores-Inv}
use novaio.Queues.Spsc.Race.Popping.{
  with_consumer, passes_test, apart, moves-Inv, destroys-Inv, leaves-Inv,
}
use novaio.Queues.Spsc.Race.Invariant.{in_flight, settled_head, Produces, Consumes, Inv, start-Inv}

module _ {ℓ} {A : Type ℓ} where
  Step-Inv : {s t : Race A} → Step s t → Inv s → Inv t
  Step-Inv {s} (push_begins item e) v =
      with_producer v (checking item s.queue.tail) (refl, known v idle e)
  Step-Inv (push_fails item tail e full) v =
      let (at, same) = known v (checking item tail) e in with_producer v idle same
  Step-Inv (push_passes item tail e room) v = passes-Inv v item tail e room
  Step-Inv (push_constructs item tail e) v = constructs-Inv v item tail e
  Step-Inv (push_stores item tail e) v = stores-Inv v item tail e
  Step-Inv {s} (pop_begins e) v =
      with_consumer v (testing s.queue.head) (sym (ap in_flight e))
        (sym (ap (λ c. settled_head c s.queue.head) e)) (refl, tt)
  Step-Inv {s} (pop_fails head e at) v =
      with_consumer v resting (sym (ap in_flight e)) (sym (ap (λ c. settled_head c s.queue.head) e))
        tt
  Step-Inv (pop_passes head e ne) v = passes_test v head e ne
  Step-Inv (pop_moves head e) v = moves-Inv v head e
  Step-Inv (pop_destroys head out e) v = destroys-Inv v head out e
  Step-Inv (pop_stores head out e) v = leaves-Inv v head out e

  Reach-Inv : {q : SpscQueue A} {s : Race A} → Holds q [] → Reach q s → Inv s
  Reach-Inv {q} h begins = start-Inv q h
  Reach-Inv h (moves r st) = Step-Inv st (Reach-Inv h r)

  -- In every interleaving of a producer and a consumer on a queue that was empty, the consumer has
  -- moved out the first of the items that were pushed, in their order and none from a raw slot; at most
  -- `capacity` items are on the way.
  pub popped_in_order :
      {q : SpscQueue A} {s : Race A}
      → Holds q []
      → Reach q s
      → (on_the_way : List (Option A)) × (map some s.pushed ≡ s.popped ++ on_the_way)
        × (length on_the_way ≤ s.queue.capacity)
  popped_in_order {s = s} h r =
      let v : Inv s = Reach-Inv h r in
      (
        in_flight s.consumer ++ map some v.items,
        v.history ∙ append_assoc s.popped (in_flight s.consumer) (map some v.items),
        omega (
          arith,
          v.fits,
          length-append (in_flight s.consumer) (map some v.items),
          length-map v.items some,
        ),
      )

  -- The slots that the two threads use: the one into which the producer is about to construct, and the
  -- one from which the consumer is about to move or which it is about to destroy.
  abbrev pub writes_at : Producer A → SpscQueue A → Option ℕ
  writes_at (writing item tail) q = some (bit_and tail q.mask)
  writes_at _ q = none

  abbrev pub uses_at : Consumer A → SpscQueue A → Option ℕ
  uses_at (moving head) q = some (bit_and head q.mask)
  uses_at (destroying head out) q = some (bit_and head q.mask)
  uses_at _ q = none

  writer :
      (p : Producer A) (q b : SpscQueue A) (n i : ℕ)
      → Produces p q b n
      → writes_at p q ≡ some i
      → (i ≡ tail_at q) × (n < q.capacity) × (q.buffer i ≡ b.buffer i)
  writer (writing item tail) q b n i (at, room, k) w =
      let here : bit_and tail q.mask ≡ i = cc in
      (sym here ∙ ap (λ t. bit_and t q.mask) at, room, k i)
  writer idle q b n i k w = absurd (cc)
  writer (checking item tail) q b n i k w = absurd (cc)
  writer (storing item tail) q b n i k w = absurd (cc)

  user :
      (c : Consumer A) (q : SpscQueue A) (xs : List A) (i : ℕ)
      → Consumes c q.head xs
      → uses_at c q ≡ some i
      → (i ≡ head_at q)
        × ((x : A) × (rest : List A) × (xs ≡ x ∷ rest))
        × (in_flight c ≡ [])
        × (settled_head c q.head ≡ q.head)
  user (moving head) q xs i (at, some_item) u =
      let here : bit_and head q.mask ≡ i = cc in
      (sym here ∙ ap (λ t. bit_and t q.mask) at, some_item, refl, refl)
  user (destroying head out) q xs i (at, (x, rest, e, read)) u =
      let here : bit_and head q.mask ≡ i = cc in
      (sym here ∙ ap (λ t. bit_and t q.mask) at, (x, rest, e), refl, refl)
  user resting q xs i k u = absurd (cc)
  user (testing head) q xs i k u = absurd (cc)
  user (leaving head out) q xs i k u = absurd (cc)

  -- The two threads never use one slot at the same time, and the producer constructs into a raw slot.
  pub slots_disjoint :
      {q : SpscQueue A} {s : Race A} (i : ℕ)
      → Holds q []
      → Reach q s
      → writes_at s.producer s.queue ≡ some i
      → (s.queue.buffer i ≡ none) × (uses_at s.consumer s.queue ≢ some i)
  slots_disjoint {s = s} i h r w =
      let v : Inv s = Reach-Inv h r in
      let (at, room, same) = writer s.producer s.queue v.settled _ i v.produces w in
      (
        same
            ∙ ap v.settled.buffer (at ∙ sym (ap₂ bit_and v.tail_eq v.mask_eq))
            ∙ tail_raw v.settled v.items v.holds (omega (arith, v.capacity_eq)),
        λ u.
            let (at', (x, rest, e), flight, here) =
              user s.consumer s.queue v.items i v.consumes u in
            apart v x rest e flight (v.head_eq ∙ here) room (sym at' ∙ at),
      )
