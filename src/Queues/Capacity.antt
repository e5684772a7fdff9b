-- ===== src/Queues/Capacity.antt =====
-- include/novaio/concurrent_queues.hpp: the check that both constructors make of a capacity.
use native.Mathlib.Nat.{pow-suc, mod_self, one-le-pow}
use novaio.Prelude.{
  ℕ, zero, suc, ◌+◌, ◌-◌, ◌/◌, ◌%◌, ◌^◌, ◌<◌, bit_and, ◌≡◌, refl, ap, ◌↔◌, ◌⊎◌, inl, inr, Bool,
  false, not, arith, ◌==◌, eq_of_==, Bool-cases,
}
use novaio.Bits.{bit_and-halves, bit_and_mask}

-- `capacity - 1` in a `size_t`
abbrev pub mask_of : ℕ → ℕ
mask_of capacity = (capacity + 2 ^ 64 - 1) % 2 ^ 64

-- `(capacity & (capacity - 1)) != 0`, the test on which the constructors throw
unfoldable pub is_bad_capacity : ℕ → Bool
is_bad_capacity capacity = not (bit_and capacity (mask_of capacity) == 0)

and_self_below : (n a : ℕ) → a < n → bit_and a a ≡ a
and_self_below zero a h = absurd (omega arith)
and_self_below (suc n) zero h = refl
and_self_below (suc n) (suc a) h =
    omega (arith, bit_and-halves (suc a) (suc a), and_self_below n (suc a / 2) (omega arith))

bit_and_self : (a : ℕ) → bit_and a a ≡ a
bit_and_self a = and_self_below (suc a) a (omega arith)

abbrev pub IsPowerOfTwo : ℕ → Type 0
IsPowerOfTwo c = (k : ℕ) × (c ≡ 2 ^ k)

double : (c : ℕ) → IsPowerOfTwo (c / 2) → c % 2 ≡ 0 → IsPowerOfTwo c
double c (k, e) even = (suc k, omega (arith, pow-suc 2 k))

-- A number that shares no bit with its predecessor has one bit.
power_below : (n c : ℕ) → c < n → 0 < c → bit_and c (c - 1) ≡ 0 → IsPowerOfTwo c
power_below zero c h p e = absurd (omega arith)
power_below (suc n) zero h p e = absurd (omega arith)
power_below (suc n) (suc zero) h p e = (0, refl)
power_below (suc n) (suc (suc c)) h p e = elim (Bool-cases (suc (suc c) % 2 == 0)) [
  | inl even ↦
      double (suc (suc c))
        (power_below n (suc (suc c) / 2) (omega arith) (omega arith)
          (ground (arith, bit_and-halves (suc (suc c)) (suc (suc c) - 1))))
        (eq_of_== _ _ even)
  | inr odd ↦ absurd (
      ground
        (arith, bit_and-halves (suc (suc c)) (suc (suc c) - 1), bit_and_self (suc (suc c) / 2)))
]

-- The constructors accept 0 and the powers of two, and nothing else.
pub is_bad_capacity_iff :
    (c : ℕ) → c < 2 ^ 64 → (is_bad_capacity c ≡ false) ↔ ((c ≡ 0) ⊎ IsPowerOfTwo c)
unfolding is_bad_capacity
is_bad_capacity_iff c h = (accepted, good)
  where
    mask : 0 < c → mask_of c ≡ c - 1
    mask p = omega arith

    accepted : not (bit_and c (mask_of c) == 0) ≡ false → (c ≡ 0) ⊎ IsPowerOfTwo c
    accepted e = elim (Bool-cases (c == 0)) [
      | inl z ↦ inl (eq_of_== c 0 z)
      | inr nz ↦ inr (
          power_below (suc c) c (omega arith) (ground arith)
            (ground (arith, ap (bit_and c) (mask (ground arith)))))
    ]

    good : (c ≡ 0) ⊎ IsPowerOfTwo c → not (bit_and c (mask_of c) == 0) ≡ false
    good (inl z) = rw z refl
    good (inr (k, e)) = ground (
      arith,
      one-le-pow k 2,
      ap (bit_and c) (mask (omega (arith, one-le-pow k 2))),
      bit_and_mask k c,
      mod_self c,
    )
