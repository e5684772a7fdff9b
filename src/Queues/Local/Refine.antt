-- ===== src/Queues/Local/Refine.antt =====
-- include/novaio/concurrent_queues.hpp: what a `LocalQueue` holds, and its operations on that.
use native.Mathlib.Nat.{add-mod_right, one-le-pow}
use novaio.Prelude.{
  ℕ, suc, ◌+◌, ◌-◌, ◌%◌, ◌^◌, bit_and, ◌≤◌, ◌<◌, ◌≡◌, refl, sym, ap, ap₂, ◌∙◌, true, false, some,
  List, [], ◌∷◌, ◌++◌, arith, ◌==◌, Bool-cases, ==_self, ==_of_ne, ◌⊎◌, inl, inr,
}
use novaio.Bits.{bit_and_mask, wrap-mod, pow_mono}
use novaio.Handle.{Handle, null}
use novaio.Queues.Capacity.{is_bad_capacity_iff, mask_of}
use novaio.Queues.Window.{write, window, window_congr, window-write}
use novaio.Queues.Local.{LocalQueue, make, push, pop}

-- The number of items: `tail - head` in 32 bits.
abbrev pub size : LocalQueue → ℕ
size q = (q.tail + 2 ^ 32 - q.head) % 2 ^ 32

-- `bits` is the logarithm of the capacity. At `2^32` items the counters could not tell a full
-- queue from an empty one.
pub record IsValid (q : LocalQueue) : Type 0 where
  pub bits : ℕ
  pub bits_lt : bits < 32
  pub capacity_eq : q.capacity ≡ 2 ^ bits
  pub mask_eq : q.mask ≡ 2 ^ bits - 1
  pub head_lt : q.head < 2 ^ 32
  pub tail_lt : q.tail < 2 ^ 32
  pub fits : size q ≤ q.capacity

-- The items, oldest first.
abbrev pub contents : LocalQueue → List Handle
contents q = window q.buffer q.capacity q.head (size q)

index : {q : LocalQueue} (v : IsValid q) (x : ℕ) → bit_and x q.mask ≡ x % q.capacity
index v x = rw (v.mask_eq, v.capacity_eq) (bit_and_mask v.bits x)

capacity-le : {q : LocalQueue} → IsValid q → q.capacity ≤ 2 ^ 31
capacity-le v = omega (arith, v.capacity_eq, pow_mono v.bits 31)

wrap : {q : LocalQueue} (v : IsValid q) (x : ℕ) → x % 2 ^ 32 % q.capacity ≡ x % q.capacity
wrap v x = rw v.capacity_eq (wrap-mod v.bits 32 x (omega arith))

tail_slot : {q : LocalQueue} (v : IsValid q) → q.tail % q.capacity ≡ (q.head + size q) % q.capacity
tail_slot {q} v = ap (λ t. t % q.capacity) (omega arith) ∙ wrap v (q.head + size q)

-- What the constructor makes of a power of two below `2^32` is valid and empty.
pub make-IsValid :
    (k : ℕ) → k < 32 → (q : LocalQueue) × (make (2 ^ k) ≡ some q) × IsValid q × (contents q ≡ [])
unfolding make
make-IsValid k h = (
  record { capacity = 2 ^ k; mask = mask_of (2 ^ k); head = 0; tail = 0; buffer = λ _. null },
  rw ((is_bad_capacity_iff (2 ^ k) (omega (arith, pow_mono k 31))).1 (inr (k, refl))),
  record {
    bits = k;
    bits_lt = h;
    capacity_eq = refl;
    mask_eq = omega (arith, one-le-pow k 2, pow_mono k 31);
    head_lt = omega arith;
    tail_lt = omega arith;
    fits = omega arith;
  },
  refl,
)

pub size-push :
    {q : LocalQueue} (x : Handle) → IsValid q → size q < q.capacity → size (push q x) ≡ suc (size q)
unfolding push
size-push x v room = omega (arith, capacity-le v)

-- With room in the queue `push` appends the item.
pub push_refines :
    {q : LocalQueue} (x : Handle)
    → IsValid q
    → size q < q.capacity
    → IsValid (push q x) × (contents (push q x) ≡ contents q ++ x ∷ [])
unfolding push
push_refines {q} x v room = (
  record {
    bits = v.bits;
    bits_lt = v.bits_lt;
    capacity_eq = v.capacity_eq;
    mask_eq = v.mask_eq;
    head_lt = v.head_lt;
    tail_lt = omega arith;
    fits = omega (arith, size-push x v room);
  },
  ap₂ (λ i n. window (write q.buffer i x) q.capacity q.head n) (index v q.tail ∙ tail_slot v)
        (size-push x v room)
      ∙ window-write q.buffer q.capacity (size q) q.head x room,
)

-- what `pop` does: it fails on the empty queue only, and otherwise splits off the oldest item
abbrev pub Pops : LocalQueue → Handle × LocalQueue → Type 0
Pops q (h, q') =
    ((contents q ≡ []) × (h ≡ null) × (q' ≡ q)) ⊎ ((contents q ≡ h ∷ contents q') × IsValid q')

-- `pop` takes the oldest item, and returns null on the empty queue alone, which it leaves alone.
pub pop_refines : {q : LocalQueue} → IsValid q → Pops q (pop q)
unfolding pop
pop_refines {q} v = elim (Bool-cases (q.head == q.tail)) [
  | inl e ↦ rw e (inl (ap (window q.buffer q.capacity q.head) (gap e), refl, refl))
  | inr ne ↦ rw ne (
      inr (
        ap (window q.buffer q.capacity q.head) (rest ne)
            ∙ ap₂ (λ i xs. q.buffer i ∷ xs) (sym (index v q.head))
                (window_congr q.buffer q.capacity _ (q.head + 1) _ (sym (wrap v (q.head + 1)))),
        record {
          bits = v.bits;
          bits_lt = v.bits_lt;
          capacity_eq = v.capacity_eq;
          mask_eq = v.mask_eq;
          head_lt = omega arith;
          tail_lt = v.tail_lt;
          fits = omega (arith, rest ne);
        },
      ))
]
  where
    gap : (q.head == q.tail) ≡ true → size q ≡ 0
    gap e = ground arith

    rest :
        (q.head == q.tail) ≡ false
        → size q ≡ suc ((q.tail + 2 ^ 32 - (q.head + 1) % 2 ^ 32) % 2 ^ 32)
    rest e = ground arith

-- A push on a full queue puts the new item in the oldest one's slot: `pop` then returns the new
-- item, and the oldest is lost.
pub pop-push_full :
    {q : LocalQueue} (x : Handle) → IsValid q → size q ≡ q.capacity → (pop (push q x)).0 ≡ x
unfolding push pop
pop-push_full {q} x v full =
    rw (==_of_ne q.head ((q.tail + 1) % 2 ^ 32) (omega (arith, capacity-le v)), same, ==_self)
  where
    same : bit_and q.head q.mask ≡ bit_and q.tail q.mask
    same = rw (index v q.head, index v q.tail, tail_slot v, full, add-mod_right)
