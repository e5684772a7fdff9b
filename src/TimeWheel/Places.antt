-- ===== src/TimeWheel/Places.antt =====
-- src/time_wheel.cpp: in which cells a timer may lie, as the current tick moves on.
use novaio.Prelude.{
  ℕ, ◌+◌, ◌-◌, ◌/◌, ◌%◌, ◌^◌, ◌≤◌, ◌<◌, ◌≡◌, ◌⊎◌, ◌≢◌, ◌↔◌, Bool, true, false, arith,
}
use novaio.Bits.{bit_and_mask}
use novaio.TimeWheel.Cells.{cell_of}

-- A timer of an upper array: it lies in the cell of its bits from `s` on, and its block of `2 ^ s`
-- ticks has not begun; or, if `loose`, it begins at `now`, and the cascade is still to come.
abbrev pub Upper : Bool → (first s now e c : ℕ) → Type 0
Upper loose first s now e c =
    (c ≡ first + e / 2 ^ s % 64)
    × (((loose ≡ true) × (now % 2 ^ s ≡ 0) × (0 < now)) ⊎ (now / 2 ^ s < e / 2 ^ s))

-- A timer that expires at `e` may lie in cell `c` at tick `now`. The four marks say which upper
-- arrays may be `loose`.
abbrev pub Placed : (l2 l3 l4 l5 : Bool) → (now e c : ℕ) → Type 0
Placed l2 l3 l4 l5 now e c =
    (now ≤ e)
    × (e < 2 ^ 64)
    × (((c ≡ e % 256) × (e < now + 256))
        ⊎ Upper l2 256 8 now e c
        ⊎ Upper l3 320 14 now e c
        ⊎ Upper l4 384 20 now e c
        ⊎ Upper l5 448 26 now e c)

-- The cell that `add_timer` chooses is right in the strict sense.
pub cell_of-Placed :
    (now e : ℕ)
    → now ≤ e
    → e < 2 ^ 64
    → Placed false false false false now e (cell_of e ((e + 2 ^ 64 - now) % 2 ^ 64))
unfolding cell_of
cell_of-Placed now e le lt = (
  le,
  lt,
  ground (
    arith,
    bit_and_mask 8 e,
    bit_and_mask 6 (e / 2 ^ 8),
    bit_and_mask 6 (e / 2 ^ 14),
    bit_and_mask 6 (e / 2 ^ 20),
    bit_and_mask 6 (e / 2 ^ 26),
  ),
)

pub Placed-weaken :
    {l2 l3 l4 l5 : Bool} (now e c : ℕ)
    → Placed false false false false now e c
    → Placed l2 l3 l4 l5 now e c
Placed-weaken now e c p = ground arith

-- The node of a cell that is not the one to cascade is in the right place after the cascade.
pub Placed2 :
    {l3 l4 l5 : Bool} (now e c : ℕ)
    → now % 2 ^ 8 ≡ 0
    → c ≢ 256 + now / 2 ^ 8 % 64
    → Placed true l3 l4 l5 now e c
    → Placed false l3 l4 l5 now e c
Placed2 now e c z ne p = ground arith

pub Placed3 :
    {l4 l5 : Bool} (now e c : ℕ)
    → now % 2 ^ 14 ≡ 0
    → c ≢ 320 + now / 2 ^ 14 % 64
    → Placed false true l4 l5 now e c
    → Placed false false l4 l5 now e c
Placed3 now e c z ne p = ground arith

pub Placed4 :
    {l5 : Bool} (now e c : ℕ)
    → now % 2 ^ 20 ≡ 0
    → c ≢ 384 + now / 2 ^ 20 % 64
    → Placed false false true l5 now e c
    → Placed false false false l5 now e c
Placed4 now e c z ne p = ground arith

pub Placed5 :
    (now e c : ℕ)
    → now % 2 ^ 26 ≡ 0
    → c ≢ 448 + now / 2 ^ 26 % 64
    → Placed false false false true now e c
    → Placed false false false false now e c
Placed5 now e c z ne p = ground arith

-- Where a block does not begin at `now`, neither does one of an array further up.
pub Placed-inside8 :
    (now e c : ℕ)
    → now % 2 ^ 8 ≢ 0
    → Placed true true true true now e c
    → Placed false false false false now e c
Placed-inside8 now e c z p = ground arith

pub Placed-inside14 :
    (now e c : ℕ)
    → now / 2 ^ 8 % 64 ≢ 0
    → Placed false true true true now e c
    → Placed false false false false now e c
Placed-inside14 now e c z p = ground arith

pub Placed-inside20 :
    (now e c : ℕ)
    → now / 2 ^ 14 % 64 ≢ 0
    → Placed false false true true now e c
    → Placed false false false false now e c
Placed-inside20 now e c z p = ground arith

pub Placed-inside26 :
    (now e c : ℕ)
    → now / 2 ^ 20 % 64 ≢ 0
    → Placed false false false true now e c
    → Placed false false false false now e c
Placed-inside26 now e c z p = ground arith

pub Placed-start :
    (e c : ℕ) → Placed true true true true 0 e c → Placed false false false false 0 e c
Placed-start e c p = ground arith

-- In the strict sense, the timers that expire now are those in the first array's cell for `now`.
pub Placed-now :
    (now e c : ℕ) → Placed false false false false now e c → (c ≡ now % 256) ↔ (e ≡ now)
Placed-now now e c p = (λ h. ground arith, λ h. ground arith)

-- One tick on, with that cell emptied.
pub Placed-next :
    (now e c : ℕ)
    → c ≢ now % 256
    → Placed false false false false now e c
    → Placed true true true true (now + 1) e c
Placed-next now e c ne p = ground arith
