-- ===== src/Bits.antt =====
-- `&` with a mask and `|` of disjoint fields, as arithmetic.
use Prim.Native.Nat.{digits, bitwise, bit_and-bitwise, bit_or-bitwise}
use Prim.Native.Nat.{◌∣◌}
use native.Mathlib.Decide.{ℕ_discrete}
use native.Mathlib.Nat.{
  pow-suc, one-le-pow, dvd_refl, dvd-mul_right_of_dvd, mod-mod_of_dvd, le_of_dvd,
}
use novaio.Prelude.{
  ℕ, zero, suc, ◌+◌, ◌-◌, ◌*◌, ◌/◌, ◌%◌, ◌^◌, ◌≤◌, ◌<◌, min, max, bit_and, bit_or, ◌≡◌, refl, arith,
}

-- Two amounts of fuel give the same digits when both reach the number whose digits are read.
module _ (tail : ℕ → ℕ) (join : ℕ → ℕ → ℕ) where
  fuel_free :
      (x y fuel more : ℕ)
      → x ≤ more
      → x ≤ fuel
      → digits tail join more x y ≡ digits tail join fuel x y
  fuel_free zero y zero zero lm lf = refl
  fuel_free zero y zero (suc more) lm lf = refl
  fuel_free zero y (suc fuel) zero lm lf = refl
  fuel_free zero y (suc fuel) (suc more) lm lf = refl
  fuel_free (suc x) y zero more lm lf = absurd (omega arith)
  fuel_free (suc x) y (suc fuel) zero lm lf = absurd (omega arith)
  fuel_free (suc x) y (suc fuel) (suc more) lm lf =
      let half = fuel_free (suc x / 2) (y / 2) fuel more (omega arith) (omega arith) in omega arith

  halves :
      (x y : ℕ)
      → join (suc x % 2) (y % 2) + 2 * bitwise tail join (suc x / 2) (y / 2)
        ≡ bitwise tail join (suc x) y
  halves x y =
      let half = fuel_free (suc x / 2) (y / 2) (suc x / 2) x (omega arith) (omega arith) in
      omega arith

pub bit_and-halves : (x y : ℕ) → min (x % 2) (y % 2) + 2 * bit_and (x / 2) (y / 2) ≡ bit_and x y
bit_and-halves zero y = simp bit_and-bitwise (omega arith)
bit_and-halves (suc x) y = simp bit_and-bitwise (halves (λ c. zero) min x y)

pub bit_or-halves : (x y : ℕ) → max (x % 2) (y % 2) + 2 * bit_or (x / 2) (y / 2) ≡ bit_or x y
bit_or-halves zero y = simp bit_or-bitwise (omega arith)
bit_or-halves (suc x) y = simp bit_or-bitwise (halves (λ c. c) max x y)

module _ where
  and_zero_below : (n a : ℕ) → a < n → bit_and a 0 ≡ 0
  and_zero_below zero a h = absurd (omega arith)
  and_zero_below (suc n) zero h = refl
  and_zero_below (suc n) (suc a) h =
      omega (arith, bit_and-halves (suc a) 0, and_zero_below n (suc a / 2) (omega arith))

  or_zero_below : (n a : ℕ) → a < n → bit_or a 0 ≡ a
  or_zero_below zero a h = absurd (omega arith)
  or_zero_below (suc n) zero h = refl
  or_zero_below (suc n) (suc a) h =
      omega (arith, bit_or-halves (suc a) 0, or_zero_below n (suc a / 2) (omega arith))

pub bit_and-zero : (a : ℕ) → bit_and a 0 ≡ 0
bit_and-zero a = and_zero_below (suc a) a (omega arith)

pub bit_or-zero : (a : ℕ) → bit_or a 0 ≡ a
bit_or-zero a = or_zero_below (suc a) a (omega arith)

mod_double : (a p : ℕ) → 0 < p → a % (2 * p) ≡ a / 2 % p * 2 + a % 2
mod_double a p h = grind arith

-- `x & (2^k - 1)` is the remainder by `2^k`.
pub bit_and_mask : (k a : ℕ) → bit_and a (2 ^ k - 1) ≡ a % 2 ^ k
bit_and_mask zero a = omega (arith, bit_and-zero a)
bit_and_mask (suc k) a = ground (
  arith,
  pow-suc 2 k,
  one-le-pow k 2,
  bit_and-halves a (2 ^ suc k - 1),
  bit_and_mask k (a / 2),
  mod_double a (2 ^ k),
)

-- Low three bits, and a number with these cleared, in 64 bits.
pub bit_and_low3 : (a : ℕ) → bit_and a 7 ≡ a % 8
bit_and_low3 a = bit_and_mask 3 a

pub bit_or_low3 : (a t : ℕ) → a % 8 ≡ 0 → t < 8 → bit_or a t ≡ a + t
bit_or_low3 a t h s = ground (
  arith,
  bit_or-halves a t,
  bit_or-halves (a / 2) (t / 2),
  bit_or-halves (a / 2 / 2) (t / 2 / 2),
  bit_or-zero (a / 2 / 2 / 2),
)

pow_dvd : (k n : ℕ) → k ≤ n → 2 ^ k ∣ 2 ^ n
pow_dvd k zero h = let e : k ≡ 0 = omega arith in rw e (dvd_refl (2 ^ 0))
pow_dvd k (suc n) h = elim (ℕ_discrete k (suc n)) [
  | yes e ↦ rw e (dvd_refl (2 ^ suc n))
  | no ne ↦ rw pow-suc (dvd-mul_right_of_dvd (2 ^ k) (pow_dvd k n (omega arith)) 2)
]

-- An index below `2^k` does not notice that its counter wraps at `2^w`.
pub wrap-mod : (k w x : ℕ) → k ≤ w → x % 2 ^ w % 2 ^ k ≡ x % 2 ^ k
wrap-mod k w x h = mod-mod_of_dvd (2 ^ k) x (pow_dvd k w h)

pub pow_mono : (k n : ℕ) → k ≤ n → 2 ^ k ≤ 2 ^ n
pow_mono k n h = le_of_dvd (one-le-pow n 2 (omega arith)) (pow_dvd k n h)
