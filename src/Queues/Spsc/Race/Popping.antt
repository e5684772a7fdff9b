-- ===== src/Queues/Spsc/Race/Popping.antt =====
-- include/novaio/concurrent_queues.hpp: the steps of the consumer.
use novaio.Prelude.{
  ℕ, ◌+◌, ◌%◌, ◌^◌, ◌≤◌, ◌<◌, bit_and, ◌≡◌, refl, sym, ap, ap₂, ◌∙◌, subst, ◌≢◌, Option, none, some,
  List, [], ◌∷◌, ◌++◌, map, append-nil, append_assoc, arith, ◌==◌, if◌then◌else◌, ==_of_ne, length,
}
use novaio.Queues.Window.{write}
use novaio.Queues.Spsc.{SpscQueue}
use novaio.Queues.Spsc.Refine.{Holds, length-items}
use novaio.Queues.Spsc.Pop.{dropped, first, dropped-Holds}
use novaio.Queues.Spsc.Race.{
  Producer, idle, checking, writing, storing, Consumer, resting, testing, moving, destroying,
  leaving, Race, set_slot,
}
use novaio.Queues.Spsc.Race.Slots.{tail_at, head_at, ends_differ}
use novaio.Queues.Spsc.Race.Invariant.{in_flight, settled_head, Produces, Consumes, Inv}

module _ {ℓ} {A : Type ℓ} where
  -- The consumer may know something else, with the queue as it is and nothing given back.
  pub with_consumer :
      {s : Race A} (v : Inv s) (c : Consumer A)
      → in_flight c ≡ in_flight s.consumer
      → settled_head c s.queue.head ≡ settled_head s.consumer s.queue.head
      → Consumes c s.queue.head v.items
      → Inv (record s { consumer = c })
  with_consumer {s} v c flight head knows = record {
    settled = v.settled;
    items = v.items;
    holds = v.holds;
    capacity_eq = v.capacity_eq;
    mask_eq = v.mask_eq;
    tail_eq = v.tail_eq;
    head_eq = v.head_eq ∙ sym head;
    head_lt = v.head_lt;
    fits = omega (arith, v.fits, ap length flight);
    produces =
        subst (λ (n : ℕ). Produces s.producer s.queue v.settled n)
          (ap (λ f. length v.items + length f) (sym flight)) v.produces;
    consumes = knows;
    history = v.history ∙ ap (λ f. s.popped ++ f ++ map some v.items) (sym flight);
  }

  pub known_by :
      {s : Race A} (v : Inv s) (c : Consumer A) → s.consumer ≡ c → Consumes c s.queue.head v.items
  known_by {s} v c e = subst (λ d. Consumes d s.queue.head v.items) e v.consumes

  nonempty : (xs : List A) → 0 < length xs → (x : A) × (rest : List A) × (xs ≡ x ∷ rest)
  nonempty [] l = absurd (omega arith)
  nonempty (x ∷ rest) l = (x, rest, refl)

  -- A consumer whose test finds the tail elsewhere has an item.
  pub passes_test :
      {s : Race A} (v : Inv s) (head : ℕ)
      → s.consumer ≡ testing head
      → head ≢ s.queue.tail
      → Inv (record s { consumer = moving head })
  passes_test {s} v head e ne =
      let (at, _) = known_by v (testing head) e in
      let settled_at : v.settled.head ≡ s.queue.head =
        v.head_eq ∙ ap (λ c. settled_head c s.queue.head) e in
      with_consumer v (moving head) (sym (ap in_flight e))
        (sym (ap (λ c. settled_head c s.queue.head) e))
        (
          at,
          nonempty v.items (
              omega
                (arith, length-items v.items v.holds, v.tail_eq, v.holds.shape.tail_lt, v.head_lt)),
        )

  -- Away from the slot that the producer writes, the queue is the settled one.
  agree :
      (p : Producer A) (q b : SpscQueue A) (n j : ℕ)
      → (n < q.capacity → j ≢ tail_at q)
      → Produces p q b n
      → q.buffer j ≡ b.buffer j
  agree idle q b n j apart k = k j
  agree (checking item tail) q b n j apart (at, k) = k j
  agree (writing item tail) q b n j apart (at, room, k) = k j
  agree (storing item tail) q b n j apart (at, room, stored, k) = k j (apart room)

  -- The consumer's slot is not the producer's.
  pub apart :
      {s : Race A} (v : Inv s) (x : A) (rest : List A)
      → v.items ≡ x ∷ rest
      → in_flight s.consumer ≡ []
      → v.settled.head ≡ s.queue.head
      → length v.items + length (in_flight s.consumer) < s.queue.capacity
      → head_at s.queue ≢ tail_at s.queue
  apart {s} v x rest e flight head room same =
      ends_differ v.settled v.items v.holds (omega (arith, ap length e))
        (omega (arith, v.capacity_eq))
        (ap₂ bit_and head v.mask_eq ∙ same ∙ sym (ap₂ bit_and v.tail_eq v.mask_eq))

  pub moves-Inv :
      {s : Race A} (v : Inv s) (head : ℕ)
      → s.consumer ≡ moving head
      → Inv (record s { consumer = destroying head (s.queue.buffer (bit_and head s.queue.mask)) })
  moves-Inv {s} v head e =
      let (at, (x, rest, items)) = known_by v (moving head) e in
      let flight : in_flight s.consumer ≡ [] = ap in_flight e in
      let settled_at : v.settled.head ≡ s.queue.head =
        v.head_eq ∙ ap (λ c. settled_head c s.queue.head) e in
      let here : s.queue.buffer (head_at s.queue) ≡ v.settled.buffer (head_at s.queue) =
        agree s.producer s.queue v.settled _ (head_at s.queue)
          (apart v x rest items flight settled_at) v.produces in
      with_consumer v (destroying head (s.queue.buffer (bit_and head s.queue.mask))) (sym flight)
        (sym (ap (λ c. settled_head c s.queue.head) e))
        (
          at,
          (
            x,
            rest,
            items,
            ap (λ h. s.queue.buffer (bit_and h s.queue.mask)) at
                ∙ here
                ∙ ap v.settled.buffer (sym (ap₂ bit_and settled_at v.mask_eq))
                ∙ first v.settled x rest (subst (Holds v.settled) items v.holds),
          ),
        )

  both :
      (q b : SpscQueue A) (i j : ℕ)
      → q.buffer j ≡ b.buffer j
      → write q.buffer i none j ≡ write b.buffer i none j
  both q b i j e = ap (λ v. if j == i then none else v) e

  -- The slot of the consumer becomes raw in both views.
  Produces-dropped :
      (p : Producer A) (q b : SpscQueue A) (h n n' : ℕ)
      → n' ≡ n
      → head_at b ≡ bit_and h q.mask
      → (n < q.capacity → bit_and h q.mask ≢ tail_at q)
      → Produces p q b n
      → Produces p (set_slot q h none) (dropped b) n'
  Produces-dropped idle q b h n n' e slot off k = λ j. rw slot (both q b (bit_and h q.mask) j (k j))
  Produces-dropped (checking item tail) q b h n n' e slot off (at, k) =
      (at, λ j. rw slot (both q b (bit_and h q.mask) j (k j)))
  Produces-dropped (writing item tail) q b h n n' e slot off (at, room, k) =
      (at, omega arith, λ j. rw slot (both q b (bit_and h q.mask) j (k j)))
  Produces-dropped (storing item tail) q b h n n' e slot off (at, room, stored, k) = (
    at,
    omega arith,
    rw (==_of_ne (tail_at q) (bit_and h q.mask) (λ same. off room (sym same))) stored,
    λ j ne. rw slot (both q b (bit_and h q.mask) j (k j ne)),
  )

  regroup :
      (xs : List (Option A)) (x out : Option A) (ys : List (Option A))
      → out ≡ x
      → xs ++ [] ++ x ∷ ys ≡ xs ++ out ∷ [] ++ ys
  regroup xs x out ys e = rw (append-nil xs, append_assoc xs (out ∷ []) ys, e) refl

  pub destroys-Inv :
      {s : Race A} (v : Inv s) (head : ℕ) (out : Option A)
      → s.consumer ≡ destroying head out
      → Inv (record s { consumer = leaving head out; queue = set_slot s.queue head none })
  destroys-Inv {s} v head out e =
      let (at, (x, rest, items, read)) = known_by v (destroying head out) e in
      let flight : in_flight s.consumer ≡ [] = ap in_flight e in
      let settled_at : v.settled.head ≡ s.queue.head =
        v.head_eq ∙ ap (λ c. settled_head c s.queue.head) e in
      let one_less : length rest + 1 ≡ length v.items + length (in_flight s.consumer) =
        omega (arith, ap length items, ap length flight) in
      record {
        settled = dropped v.settled;
        items = rest;
        holds = dropped-Holds v.settled x rest (subst (Holds v.settled) items v.holds);
        capacity_eq = v.capacity_eq;
        mask_eq = v.mask_eq;
        tail_eq = v.tail_eq;
        head_eq = ap (λ h. (h + 1) % 2 ^ 64) settled_at;
        head_lt = v.head_lt;
        fits = omega (arith, v.fits, one_less);
        produces =
            Produces-dropped s.producer s.queue v.settled head _ _ one_less
              (ap₂ bit_and (settled_at ∙ sym at) v.mask_eq)
              (λ room same.
                apart v x rest items flight settled_at room
                  (ap (λ h. bit_and h s.queue.mask) (sym at) ∙ same))
              v.produces;
        consumes = (at, (x, read));
        history =
            v.history
            ∙ ap₂ (λ f ys. s.popped ++ f ++ map some ys) flight items
            ∙ regroup s.popped (some x) out (map some rest) read;
      }

  Produces-mono :
      (p : Producer A) (q b : SpscQueue A) (h n n' : ℕ)
      → n' ≤ n
      → Produces p q b n
      → Produces p (record q { head = h }) b n'
  Produces-mono idle q b h n n' le k = k
  Produces-mono (checking item tail) q b h n n' le k = k
  Produces-mono (writing item tail) q b h n n' le (at, room, k) = (at, omega arith, k)
  Produces-mono (storing item tail) q b h n n' le (at, room, stored, k) =
      (at, omega arith, stored, k)

  pub leaves-Inv :
      {s : Race A} (v : Inv s) (head : ℕ) (out : Option A)
      → s.consumer ≡ leaving head out
      → Inv (record s {
        consumer = resting;
        queue = record s.queue { head = (head + 1) % 2 ^ 64 };
        popped = s.popped ++ out ∷ [];
      })
  leaves-Inv {s} v head out e =
      let (at, _) = known_by v (leaving head out) e in
      record {
        settled = v.settled;
        items = v.items;
        holds = v.holds;
        capacity_eq = v.capacity_eq;
        mask_eq = v.mask_eq;
        tail_eq = v.tail_eq;
        head_eq =
            v.head_eq
            ∙ ap (λ c. settled_head c s.queue.head) e
            ∙ ap (λ h. (h + 1) % 2 ^ 64) (sym at);
        head_lt = omega arith;
        fits = omega (arith, v.fits);
        produces =
            Produces-mono s.producer s.queue v.settled _ _ (length v.items + 0) (omega arith)
              v.produces;
        consumes = tt;
        history =
            v.history
            ∙ ap (λ f. s.popped ++ f ++ map some v.items) (ap in_flight e)
            ∙ sym (ap (λ l. l ++ map some v.items) (append-nil (s.popped ++ out ∷ [])));
      }
