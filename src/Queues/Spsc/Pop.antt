-- ===== src/Queues/Spsc/Pop.antt =====
-- include/novaio/concurrent_queues.hpp: `pop`, the destructor, and what they leave in the slots.
use native.Mathlib.Nat.{add-mod_right, mod-add-mod, mod-eq_of_lt}
use native.Mathlib.Decide.{ℕ_discrete, dec_lt}
use novaio.Prelude.{
  ℕ, zero, suc, ◌+◌, ◌-◌, ◌%◌, ◌^◌, bit_and, ◌≤◌, ◌<◌, ◌≡◌, refl, sym, ap, ◌∙◌, false, Option, none,
  some, List, [], ◌∷◌, map, arith, ◌==◌, length, ==_self, ==_of_ne, cons_head, cons_tail,
}
use novaio.Queues.Window.{mod-ne, write, window, window_congr, window-write_ne}
use novaio.Queues.Spsc.{SpscQueue, pop, destroy_loop, destroy}
use novaio.Queues.Spsc.Refine.{size, HasShape, Holds, moved, index, wrap, length-items}

module _ {ℓ} {A : Type ℓ} where
  -- the state after the oldest item is moved out or destroyed
  abbrev pub dropped : SpscQueue A → SpscQueue A
  dropped q = record q {
    buffer = write q.buffer (bit_and q.head q.mask) none;
    head = (q.head + 1) % 2 ^ 64;
  }

  module _ (q : SpscQueue A) (x : A) (xs : List A) (h : Holds q (x ∷ xs)) where
    v : HasShape q
    v = h.shape

    rest : ℕ
    rest = (q.tail + 2 ^ 64 - (q.head + 1) % 2 ^ 64) % 2 ^ 64

    shrunk : suc rest ≡ size q
    unfolding rest
    shrunk = omega (arith, length-items (x ∷ xs) h)

    split :
        q.buffer (q.head % q.capacity) ∷ window q.buffer q.capacity (q.head + 1) rest
        ≡ some x ∷ map some xs
    split = ap (window q.buffer q.capacity q.head) shrunk ∙ h.items

    not_empty : (q.head == q.tail) ≡ false
    not_empty = ==_of_ne q.head q.tail (omega (arith, length-items (x ∷ xs) h))

    pub first : q.buffer (bit_and q.head q.mask) ≡ some x
    unfolding v
    first = ap q.buffer (index v q.head) ∙ cons_head split

    -- the head's slot, as the slot one round later
    head_slot : bit_and q.head q.mask ≡ (q.head + q.capacity) % q.capacity
    head_slot = index v q.head ∙ sym (add-mod_right q.head q.capacity)

    raw_after :
        (i : ℕ)
        → rest ≤ i
        → i < q.capacity
        → write q.buffer (bit_and q.head q.mask) none ((q.head + 1 + i) % q.capacity) ≡ none
    unfolding v
    raw_after i lo hi = elim (ℕ_discrete (suc i) q.capacity) [
      | yes e ↦ rw (last e, ==_self)
      | no ne ↦
          rw
            (
              next,
              index v q.head,
              ==_of_ne ((q.head + suc i) % q.capacity) (q.head % q.capacity)
                  (λ e. mod-ne q.capacity q.head (suc i) (omega arith) (omega arith) (sym e)),
            )
            (h.raw (suc i) (omega (arith, shrunk)) (omega arith))
    ]
      where
        next : (q.head + 1 + i) % q.capacity ≡ (q.head + suc i) % q.capacity
        next = ap (λ t. t % q.capacity) (omega arith)

        last : suc i ≡ q.capacity → (q.head + 1 + i) % q.capacity ≡ bit_and q.head q.mask
        last e = next ∙ ap (λ t. (q.head + t) % q.capacity) e ∙ sym head_slot

    slot : (i : ℕ) → ((q.head + 1) % 2 ^ 64 + i) % q.capacity ≡ (q.head + 1 + i) % q.capacity
    unfolding v
    slot i =
        sym (mod-add-mod ((q.head + 1) % 2 ^ 64) q.capacity i)
        ∙ ap (λ t. (t + i) % q.capacity) (wrap v (q.head + 1))
        ∙ mod-add-mod (q.head + 1) q.capacity i

    pub dropped-Holds : Holds (dropped q) xs
    unfolding v rest
    dropped-Holds = record {
      shape = moved _ q.tail _ v (omega arith) v.tail_lt (omega (arith, shrunk));
      items =
          ap (λ i. window (write q.buffer i none) q.capacity ((q.head + 1) % 2 ^ 64) rest) head_slot
          ∙ window_congr (write q.buffer ((q.head + q.capacity) % q.capacity) none) q.capacity rest
              ((q.head + 1) % 2 ^ 64) (q.head + 1) (wrap v (q.head + 1))
          ∙ window-write_ne q.buffer q.capacity rest (q.head + 1) (q.head + q.capacity) none
              (omega (arith, shrunk)) (omega arith)
          ∙ cons_tail split;
      raw =
          λ i lo hi. ap (write q.buffer (bit_and q.head q.mask) none) (slot i) ∙ raw_after i lo hi;
    }

  abbrev pub Pops : SpscQueue A → List A → Option A × SpscQueue A → Type ℓ
  Pops q [] (out, q') = (out ≡ none) × (q' ≡ q)
  Pops q (x ∷ xs) (out, q') = (out ≡ some x) × Holds q' xs

  -- `pop` takes the oldest item, and fails on the empty queue alone, which it leaves alone.
  pub pop-Pops : (q : SpscQueue A) (xs : List A) → Holds q xs → Pops q xs (pop q)
  unfolding pop
  pop-Pops q [] h =
      let e : q.head ≡ q.tail = omega (arith, length-items [] h) in rw (e, ==_self) (refl, refl)
  pop-Pops q (x ∷ xs) h = rw (not_empty q x xs h) (first q x xs h, dropped-Holds q x xs h)

  destroy_loop-Holds :
      (fuel : ℕ) (q : SpscQueue A) (xs : List A)
      → Holds q xs
      → length xs < fuel
      → (q' : SpscQueue A) × (destroy_loop fuel q ≡ some q')
        × Holds q' []
        × (q'.capacity ≡ q.capacity)
  unfolding destroy_loop
  destroy_loop-Holds zero q xs h f = absurd (omega arith)
  destroy_loop-Holds (suc fuel) q [] h f =
      (q, (let e : q.head ≡ q.tail = omega (arith, length-items [] h) in rw (e, ==_self)), h, refl)
  destroy_loop-Holds (suc fuel) q (x ∷ xs) h f =
      rw (not_empty q x xs h)
        (destroy_loop-Holds fuel (dropped q) xs (dropped-Holds q x xs h) (omega arith))

  -- An empty queue has no item in any slot.
  all_raw : (q : SpscQueue A) → Holds q [] → (j : ℕ) → j < q.capacity → q.buffer j ≡ none
  all_raw q h j lt = elim (dec_lt j r) [
    | yes below ↦
        reach (j + q.capacity - r) (omega arith) (add-mod_right j q.capacity ∙ mod-eq_of_lt lt)
          (omega arith)
    | no above ↦ reach (j - r) (omega arith) (mod-eq_of_lt lt) (omega arith)
  ]
    where
      r : ℕ
      r = q.head % q.capacity

      none_held : size q ≡ 0
      none_held = length-items [] h

      reach : (i : ℕ) {k : ℕ} → r + i ≡ k → k % q.capacity ≡ j → i < q.capacity → q.buffer j ≡ none
      reach i e m small =
          ap q.buffer (sym (sym (mod-add-mod q.head q.capacity i) ∙ ap (λ t. t % q.capacity) e ∙ m))
          ∙ h.raw i (omega (arith, none_held)) small

  -- The destructor ends, and leaves no slot with an item in it.
  pub destroy_raw :
      (q : SpscQueue A) (xs : List A)
      → Holds q xs
      → (q' : SpscQueue A) × (destroy q ≡ some q') × ((j : ℕ) → j < q.capacity → q'.buffer j ≡ none)
  unfolding destroy
  destroy_raw q xs h =
      let (q', e, h', c) =
        destroy_loop-Holds (suc q.capacity) q xs h
          (omega (arith, h.shape.fits, length-items xs h)) in
      (q', e, λ j lt. all_raw q' h' j (omega (arith, c)))
