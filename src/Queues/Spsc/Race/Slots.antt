-- ===== src/Queues/Spsc/Race/Slots.antt =====
-- include/novaio/concurrent_queues.hpp: the slots at the two ends of a queue that holds given items.
use novaio.Prelude.{
  ℕ, ◌+◌, ◌-◌, ◌%◌, ◌^◌, ◌<◌, bit_and, ◌≡◌, sym, ap, ◌∙◌, ◌≢◌, inl, inr, false, none, some, List,
  [], ◌∷◌, ◌++◌, arith, ltb, length,
}
use novaio.Queues.Window.{mod-ne, write}
use novaio.Queues.Spsc.{SpscQueue, push}
use novaio.Queues.Spsc.Refine.{
  size, Holds, index, tail_slot, capacity-le, length-items, push-Pushes,
}

module _ {ℓ} {A : Type ℓ} where
  abbrev pub tail_at : SpscQueue A → ℕ
  tail_at q = bit_and q.tail q.mask

  abbrev pub head_at : SpscQueue A → ℕ
  head_at q = bit_and q.head q.mask

  -- With room in the queue the slot at the tail is raw.
  pub tail_raw :
      (q : SpscQueue A) (xs : List A)
      → Holds q xs
      → length xs < q.capacity
      → q.buffer (tail_at q) ≡ none
  tail_raw q xs h room =
      ap q.buffer (index h.shape q.tail ∙ tail_slot h.shape)
      ∙ h.raw (size q) (omega arith) (omega (arith, length-items xs h))

  -- The two ends of a queue that is neither empty nor full are different slots.
  pub ends_differ :
      (q : SpscQueue A) (xs : List A)
      → Holds q xs
      → 0 < length xs
      → length xs < q.capacity
      → head_at q ≢ tail_at q
  ends_differ q xs h some_item room e =
      mod-ne q.capacity q.head (size q) (omega (arith, length-items xs h))
        (omega (arith, length-items xs h))
        (sym (index h.shape q.head) ∙ e ∙ index h.shape q.tail ∙ tail_slot h.shape)

  -- the queue when an item is stored at its tail
  abbrev pub extended : SpscQueue A → A → SpscQueue A
  extended q x = record q {
    buffer = write q.buffer (bit_and q.tail q.mask) (some x);
    tail = (q.tail + 1) % 2 ^ 64;
  }

  extends :
      (q : SpscQueue A) (x : A)
      → ltb q.capacity (((q.tail + 1) % 2 ^ 64 + 2 ^ 64 - q.head) % 2 ^ 64) ≡ false
      → (push q x).1 ≡ extended q x
  unfolding push
  extends q x not_full = rw not_full

  pub extended-Holds :
      (q : SpscQueue A) (xs : List A) (x : A)
      → Holds q xs
      → length xs < q.capacity
      → Holds (extended q x) (xs ++ x ∷ [])
  extended-Holds q xs x h room = elim (push-Pushes q xs x h) [
    | inl (done, fits, grown) ↦ rw (extends q x not_full) at grown
    | inr (failed, full, same) ↦ absurd (omega arith)
  ]
    where
      not_full : ltb q.capacity (((q.tail + 1) % 2 ^ 64 + 2 ^ 64 - q.head) % 2 ^ 64) ≡ false
      not_full = ground (arith, capacity-le h.shape, length-items xs h)
