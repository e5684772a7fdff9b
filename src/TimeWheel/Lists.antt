-- ===== src/TimeWheel/Lists.antt =====
-- src/time_wheel.cpp: the wheel as lists of nodes, one for each cell, and its operations on them.
use novaio.Prelude.{
  ℕ, zero, suc, ◌+◌, ◌-◌, ◌*◌, ◌%◌, ◌^◌, bit_and, not, ◌&&◌, List, [], ◌∷◌, ◌++◌, ◌==◌, ltb,
  if◌then◌else◌,
}
use novaio.TimeWheel.Cells.{
  Ptr, tvr_bits, tvn_bits, tvr_mask, tvn_mask, tv1, tv2, tv3, tv4, tv5, cell_of, shr,
}

abbrev pub Lists : Type 0
Lists = ℕ → List Ptr

abbrev pub clear : ℕ → Lists → Lists
clear c L d = if d == c then [] else L d

abbrev pub cons_at : ℕ → Ptr → Lists → Lists
cons_at c x L d = if d == c then x ∷ L d else L d

-- `expires` says when a node's timer expires; `now` is the current tick.
module _ (expires : Ptr → ℕ) (now : ℕ) where
  -- the cell that `add_timer` chooses
  abbrev pub cell : Ptr → ℕ
  cell x = cell_of (expires x) ((expires x + 2 ^ 64 - now) % 2 ^ 64)

  unfoldable pub put : Ptr → Lists → Lists
  put x L = cons_at (cell x) x L

  unfoldable pub put_all : List Ptr → Lists → Lists
  put_all [] L = L
  put_all (x ∷ xs) L = put_all xs (put x L)

  unfoldable pub spill : ℕ → Lists → Lists
  spill c L = put_all (L c) (clear c L)

  unfoldable pub spills : Lists → Lists
  spills L =
      let i2 = bit_and (shr now tvr_bits) tvn_mask in
      let i3 = bit_and (shr now (tvr_bits + tvn_bits)) tvn_mask in
      let i4 = bit_and (shr now (tvr_bits + 2 * tvn_bits)) tvn_mask in
      let i5 = bit_and (shr now (tvr_bits + 3 * tvn_bits)) tvn_mask in
      let L2 = spill (tv2 + i2) L in
      let L3 = spill (tv3 + i3) L2 in
      let L4 = spill (tv4 + i4) L3 in
      if not (i2 == 0)
      then L2
      else if not (i3 == 0)
      then L3
      else if not (i4 == 0)
      then L4
      else spill (tv5 + i5) L4

  unfoldable pub due_index : ℕ
  due_index = bit_and now tvr_mask

  -- the lists when the cascades of a round are done
  unfoldable pub settled : Lists → Lists
  unfolding due_index
  settled L = if due_index == 0 && ltb 0 now then spills L else L

  -- the nodes that a round fires, and the lists that it leaves
  unfoldable pub due : Lists → List Ptr
  unfolding settled
  due L = settled L (tv1 + due_index)

  unfoldable pub left : Lists → Lists
  unfolding settled
  left L = clear (tv1 + due_index) (settled L)

-- What `rounds` rounds from `now` on fire, and what they leave.
unfoldable pub due_in : (expires : Ptr → ℕ) → ℕ → ℕ → Lists → List Ptr
due_in expires zero now L = []
due_in expires (suc rounds) now L =
    due expires now L ++ due_in expires rounds (now + 1) (left expires now L)

unfoldable pub left_after : (expires : Ptr → ℕ) → ℕ → ℕ → Lists → Lists
left_after expires zero now L = L
left_after expires (suc rounds) now L = left_after expires rounds (now + 1) (left expires now L)
