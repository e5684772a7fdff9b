-- ===== src/Queues/Spsc/Race/Pushing.antt =====
-- include/novaio/concurrent_queues.hpp: the steps of the producer.
use novaio.Prelude.{
  ℕ, ◌+◌, ◌-◌, ◌%◌, ◌^◌, ◌≤◌, ◌<◌, bit_and, ◌≡◌, sym, ap, ap₂, ◌∙◌, subst, ◌≢◌, inl, inr, false,
  some, List, [], ◌∷◌, ◌++◌, map, append_assoc, map-append, arith, ◌==◌, eq_of_==, ne_of_==,
  ==_self, ==_of_ne, Bool-cases, length, length-append,
}
use novaio.Queues.Window.{write}
use novaio.Queues.Spsc.{SpscQueue}
use novaio.Queues.Spsc.Refine.{Holds, capacity-le, length-items}
use novaio.Queues.Spsc.Race.{
  Producer, idle, checking, writing, storing, Consumer, resting, testing, moving, destroying,
  leaving, Race, is_full, set_slot,
}
use novaio.Queues.Spsc.Race.Slots.{tail_at, extended, extended-Holds}
use novaio.Queues.Spsc.Race.Invariant.{in_flight, settled_head, Produces, Consumes, Inv}

module _ {ℓ} {A : Type ℓ} where
  -- The producer may know something else, with the queue as it is.
  pub with_producer :
      {s : Race A} (v : Inv s) (p : Producer A)
      → Produces p s.queue v.settled (length v.items + length (in_flight s.consumer))
      → Inv (record s { producer = p })
  with_producer v p knows = record {
    settled = v.settled;
    items = v.items;
    holds = v.holds;
    capacity_eq = v.capacity_eq;
    mask_eq = v.mask_eq;
    tail_eq = v.tail_eq;
    head_eq = v.head_eq;
    head_lt = v.head_lt;
    fits = v.fits;
    produces = knows;
    consumes = v.consumes;
    history = v.history;
  }

  abbrev pub Knows : {s : Race A} → Inv s → Producer A → Type ℓ
  Knows {s} v p = Produces p s.queue v.settled (length v.items + length (in_flight s.consumer))

  pub known : {s : Race A} (v : Inv s) (p : Producer A) → s.producer ≡ p → Knows v p
  known v p e = subst (Knows v) e v.produces

  -- `tail - head` counts the slots in use.
  in_use :
      (c : Consumer A) (q b : SpscQueue A) (xs : List A)
      → Holds b xs
      → b.capacity ≡ q.capacity
      → b.tail ≡ q.tail
      → b.head ≡ settled_head c q.head
      → q.head < 2 ^ 64
      → length xs + length (in_flight c) ≤ q.capacity
      → (q.tail + 2 ^ 64 - q.head) % 2 ^ 64 ≡ length xs + length (in_flight c)
  in_use (leaving head out) q b xs h cap tail head_eq lt fits =
      omega (arith, length-items xs h, capacity-le h.shape)
  in_use resting q b xs h cap tail head_eq lt fits = omega (arith, length-items xs h)
  in_use (testing head) q b xs h cap tail head_eq lt fits = omega (arith, length-items xs h)
  in_use (moving head) q b xs h cap tail head_eq lt fits = omega (arith, length-items xs h)
  in_use (destroying head out) q b xs h cap tail head_eq lt fits = omega (arith, length-items xs h)

  pub passes-Inv :
      {s : Race A} (v : Inv s) (item : A) (tail : ℕ)
      → s.producer ≡ checking item tail
      → is_full s.queue tail ≡ false
      → Inv (record s { producer = writing item tail })
  passes-Inv {s} v item tail e room =
      let (at, same) = known v (checking item tail) e in
      let used =
        in_use s.consumer s.queue v.settled v.items v.holds v.capacity_eq v.tail_eq v.head_eq
          v.head_lt v.fits in
      let shape = v.holds.shape in
      with_producer v (writing item tail) (at, ground (arith, capacity-le shape), same)

  pub constructs-Inv :
      {s : Race A} (v : Inv s) (item : A) (tail : ℕ)
      → s.producer ≡ writing item tail
      → Inv (record s { producer = storing item tail; queue = set_slot s.queue tail (some item) })
  constructs-Inv {s} v item tail e =
      let (at, room, same) = known v (writing item tail) e in
      record {
        settled = v.settled;
        items = v.items;
        holds = v.holds;
        capacity_eq = v.capacity_eq;
        mask_eq = v.mask_eq;
        tail_eq = v.tail_eq;
        head_eq = v.head_eq;
        head_lt = v.head_lt;
        fits = v.fits;
        produces = (
          at,
          room,
          rw (at, ==_self (tail_at s.queue)),
          λ j ne. rw (at, ==_of_ne j (tail_at s.queue) ne) (same j),
        );
        consumes = v.consumes;
        history = v.history;
      }

  -- More items do not matter to the consumer.
  Consumes-snoc :
      (c : Consumer A) (h : ℕ) (xs : List A) (item : A)
      → Consumes c h xs
      → Consumes c h (xs ++ item ∷ [])
  Consumes-snoc resting h xs item k = k
  Consumes-snoc (testing head) h xs item k = k
  Consumes-snoc (moving head) h xs item (at, (x, rest, e)) =
      (at, (x, rest ++ item ∷ [], ap (λ ys. ys ++ item ∷ []) e))
  Consumes-snoc (destroying head out) h xs item (at, (x, rest, e, f)) =
      (at, (x, rest ++ item ∷ [], ap (λ ys. ys ++ item ∷ []) e, f))
  Consumes-snoc (leaving head out) h xs item k = k

  pub stores-Inv :
      {s : Race A} (v : Inv s) (item : A) (tail : ℕ)
      → s.producer ≡ storing item tail
      → Inv (record s {
        producer = idle;
        queue = record s.queue { tail = (tail + 1) % 2 ^ 64 };
        pushed = s.pushed ++ item ∷ [];
      })
  stores-Inv {s} v item tail e =
      let (at, room, stored, same) = known v (storing item tail) e in
      record {
        settled = extended v.settled item;
        items = v.items ++ item ∷ [];
        holds = extended-Holds v.settled v.items item v.holds (omega (arith, v.capacity_eq));
        capacity_eq = v.capacity_eq;
        mask_eq = v.mask_eq;
        tail_eq = ap (λ t. (t + 1) % 2 ^ 64) (v.tail_eq ∙ sym at);
        head_eq = v.head_eq;
        head_lt = v.head_lt;
        fits = omega (arith, length-append v.items (item ∷ []));
        produces = λ j. after j (same j) stored;
        consumes = Consumes-snoc s.consumer s.queue.head v.items item v.consumes;
        history =
            map-append some s.pushed (item ∷ [])
            ∙ ap (λ ys. ys ++ some item ∷ []) v.history
            ∙ append_assoc (s.popped ++ in_flight s.consumer) (map some v.items) (some item ∷ [])
            ∙ ap (λ ys. s.popped ++ in_flight s.consumer ++ ys)
                (sym (map-append some v.items (item ∷ [])));
      }
    where
      slot : tail_at v.settled ≡ tail_at s.queue
      slot = ap₂ bit_and v.tail_eq v.mask_eq

      after :
          (j : ℕ)
          → (j ≢ tail_at s.queue → s.queue.buffer j ≡ v.settled.buffer j)
          → s.queue.buffer (tail_at s.queue) ≡ some item
          → s.queue.buffer j ≡ write v.settled.buffer (tail_at v.settled) (some item) j
      after j same stored = elim (Bool-cases (j == tail_at v.settled)) [
        | inl e ↦ rw e (ap s.queue.buffer (eq_of_== j (tail_at v.settled) e ∙ slot) ∙ stored)
        | inr ne ↦ rw ne (same (λ e. ne_of_== j (tail_at v.settled) ne (e ∙ sym slot)))
      ]
