-- ===== src/Queues/Spsc/Refine.antt =====
-- include/novaio/concurrent_queues.hpp: what an `SpscQueue` holds, and `push` on that.
use novaio.Prelude.{
  ℕ, suc, ◌+◌, ◌-◌, ◌%◌, ◌^◌, bit_and, ◌≤◌, ◌<◌, ◌≡◌, ◌≢◌, refl, sym, ap, ap₂, ◌∙◌, ◌⊎◌, inl, inr,
  Bool, true, false, Option, none, some, List, [], ◌∷◌, ◌++◌, map, map-append, arith, ltb, length,
  Bool-cases, ==_of_ne, length-map,
}
use novaio.Bits.{bit_and_mask, wrap-mod, pow_mono}
use novaio.Queues.Window.{mod-ne, write, window, length-window, window-write}
use novaio.Queues.Spsc.{SpscQueue, push}

module _ {ℓ} {A : Type ℓ} where
  -- The number of items: `tail - head` in 64 bits.
  abbrev pub size : SpscQueue A → ℕ
  size q = (q.tail + 2 ^ 64 - q.head) % 2 ^ 64

  pub record HasShape (q : SpscQueue A) : Type 0 where
    pub bits : ℕ
    pub bits_lt : bits < 64
    pub capacity_eq : q.capacity ≡ 2 ^ bits
    pub mask_eq : q.mask ≡ 2 ^ bits - 1
    pub head_lt : q.head < 2 ^ 64
    pub tail_lt : q.tail < 2 ^ 64
    pub fits : size q ≤ q.capacity

  -- The slots from `head` to `tail`, oldest first.
  abbrev pub slots : SpscQueue A → List (Option A)
  slots q = window q.buffer q.capacity q.head (size q)

  -- A queue in good shape, with the constructed items `xs` in its slots.
  pub record Holds (q : SpscQueue A) (xs : List A) : Type ℓ where
    pub shape : HasShape q
    pub items : slots q ≡ map some xs
    pub raw : (i : ℕ) → size q ≤ i → i < q.capacity → q.buffer ((q.head + i) % q.capacity) ≡ none

  -- `push` and `pop` move the counters and change slots; the rest of the shape stays.
  pub moved :
      {q : SpscQueue A} (head tail : ℕ) (buffer : ℕ → Option A)
      → HasShape q
      → head < 2 ^ 64
      → tail < 2 ^ 64
      → (tail + 2 ^ 64 - head) % 2 ^ 64 ≤ q.capacity
      → HasShape (record q { head = head; tail = tail; buffer = buffer })
  moved head tail buffer v h t f = record {
    bits = v.bits;
    bits_lt = v.bits_lt;
    capacity_eq = v.capacity_eq;
    mask_eq = v.mask_eq;
    head_lt = h;
    tail_lt = t;
    fits = f;
  }

  pub index : {q : SpscQueue A} (v : HasShape q) (x : ℕ) → bit_and x q.mask ≡ x % q.capacity
  index v x = rw (v.mask_eq, v.capacity_eq) (bit_and_mask v.bits x)

  pub capacity-le : {q : SpscQueue A} → HasShape q → q.capacity ≤ 2 ^ 63
  capacity-le v = omega (arith, v.capacity_eq, pow_mono v.bits 63)

  pub wrap : {q : SpscQueue A} (v : HasShape q) (x : ℕ) → x % 2 ^ 64 % q.capacity ≡ x % q.capacity
  wrap v x = rw v.capacity_eq (wrap-mod v.bits 64 x (omega arith))

  pub tail_slot :
      {q : SpscQueue A} (v : HasShape q) → q.tail % q.capacity ≡ (q.head + size q) % q.capacity
  tail_slot {q} v = ap (λ t. t % q.capacity) (omega arith) ∙ wrap v (q.head + size q)

  pub length-items : {q : SpscQueue A} (xs : List A) → Holds q xs → size q ≡ length xs
  length-items {q} xs h =
      sym (length-window q.buffer q.capacity q.head (size q))
      ∙ ap length h.items
      ∙ length-map xs some

  abbrev pub Pushes : SpscQueue A → List A → A → Bool × SpscQueue A → Type ℓ
  Pushes q xs x (done, q') =
      ((done ≡ true) × (length xs < q.capacity) × Holds q' (xs ++ x ∷ []))
      ⊎ ((done ≡ false) × (length xs ≡ q.capacity) × (q' ≡ q))

  -- `push` appends the item and says true if there is room, and else says false and does nothing.
  pub push-Pushes : (q : SpscQueue A) (xs : List A) (x : A) → Holds q xs → Pushes q xs x (push q x)
  unfolding push
  push-Pushes q xs x h =
      elim (Bool-cases (ltb q.capacity (((q.tail + 1) % 2 ^ 64 + 2 ^ 64 - q.head) % 2 ^ 64))) [
        | inl full ↦ rw full (inr (refl, ground (arith, capacity-le v, length-items xs h), refl))
        | inr room ↦ rw room (
            inl (
              refl,
              ground (arith, capacity-le v, length-items xs h),
              appended (ground (arith, capacity-le v)),
            ))
      ]
    where
      v : HasShape q
      v = h.shape

      apart :
          (i : ℕ)
          → size q < i
          → i < q.capacity
          → (q.head + i) % q.capacity ≢ (q.head + size q) % q.capacity
      apart i lo hi e =
          mod-ne q.capacity (q.head + size q) (i - size q) (omega arith) (omega arith)
            (sym e ∙ ap (λ t. t % q.capacity) (omega arith))

      grown :
          size q < q.capacity → ((q.tail + 1) % 2 ^ 64 + 2 ^ 64 - q.head) % 2 ^ 64 ≡ suc (size q)
      grown room = omega (arith, capacity-le v)

      appended :
          size q < q.capacity
          → Holds
              (record q {
                buffer = write q.buffer (bit_and q.tail q.mask) (some x);
                tail = (q.tail + 1) % 2 ^ 64;
              })
              (xs ++ x ∷ [])
      appended room = record {
        shape = moved q.head _ _ v v.head_lt (omega arith) (omega (arith, capacity-le v));
        items =
            ap₂ (λ i n. window (write q.buffer i (some x)) q.capacity q.head n)
              (index v q.tail ∙ tail_slot v) (grown room)
            ∙ window-write q.buffer q.capacity (size q) q.head (some x) room
            ∙ ap (λ ys. ys ++ some x ∷ []) h.items
            ∙ sym (map-append some xs (x ∷ []));
        raw = λ i lo hi.
            rw
              (
                index v q.tail,
                tail_slot v,
                ==_of_ne ((q.head + i) % q.capacity) ((q.head + size q) % q.capacity)
                    (apart i (omega (arith, grown room)) hi),
              )
              (h.raw i (omega (arith, grown room)) hi);
      }
