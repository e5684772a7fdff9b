-- ===== src/TimeWheel/Cells.antt =====
-- include/novaio/time_wheel.hpp: the arrays of the wheel and the choice of a cell. `tv1_` to `tv5_`
-- are consecutive members, so a cell is a number: the cells of `tv1_` come first, then those of `tv2_`,
-- and so on.
use novaio.Prelude.{ℕ, ◌+◌, ◌-◌, ◌*◌, ◌/◌, ◌^◌, bit_and, ltb, if◌then◌else◌}

abbrev pub Ptr : Type 0
Ptr = ℕ

abbrev pub null : Ptr
null = 0

abbrev pub tvr_bits : ℕ
tvr_bits = 8

abbrev pub tvn_bits : ℕ
tvn_bits = 6

abbrev pub tvr_size : ℕ
tvr_size = 2 ^ tvr_bits

abbrev pub tvn_size : ℕ
tvn_size = 2 ^ tvn_bits

abbrev pub tvr_mask : ℕ
tvr_mask = tvr_size - 1

abbrev pub tvn_mask : ℕ
tvn_mask = tvn_size - 1

-- the first cell of each array
abbrev pub tv1 : ℕ
tv1 = 0

abbrev pub tv2 : ℕ
tv2 = tv1 + tvr_size

abbrev pub tv3 : ℕ
tv3 = tv2 + tvn_size

abbrev pub tv4 : ℕ
tv4 = tv3 + tvn_size

abbrev pub tv5 : ℕ
tv5 = tv4 + tvn_size

-- `x >> k`
abbrev pub shr : ℕ → ℕ → ℕ
shr x k = x / 2 ^ k

-- The cell of a timer that expires at `expires`, `idx` ticks from now.
unfoldable pub cell_of : ℕ → ℕ → ℕ
cell_of expires idx =
    if ltb idx tvr_size
    then tv1 + bit_and expires tvr_mask
    else if ltb idx (2 ^ (tvr_bits + tvn_bits))
    then tv2 + bit_and (shr expires tvr_bits) tvn_mask
    else if ltb idx (2 ^ (tvr_bits + 2 * tvn_bits))
    then tv3 + bit_and (shr expires (tvr_bits + tvn_bits)) tvn_mask
    else if ltb idx (2 ^ (tvr_bits + 3 * tvn_bits))
    then tv4 + bit_and (shr expires (tvr_bits + 2 * tvn_bits)) tvn_mask
    else tv5 + bit_and (shr expires (tvr_bits + 3 * tvn_bits)) tvn_mask
