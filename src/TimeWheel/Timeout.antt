-- ===== src/TimeWheel/Timeout.antt =====
-- src/time_wheel.cpp: `next_timeout`, how long the event loop may block.
use native.Mathlib.Decide.{ℕ_discrete}
use novaio.Prelude.{
  ℕ, zero, suc, ◌+◌, ◌-◌, ◌%◌, ◌^◌, bit_and, ◌≤◌, ◌<◌, ◌≡◌, refl, ap, ◌∙◌, ◌≢◌, true, arith,
  ==_of_ne,
}
use novaio.Bits.{bit_and_mask}
use novaio.Handle.{Handle}
use novaio.TimeWheel.Cells.{Ptr, null, tv1, tvr_mask}
use novaio.TimeWheel.{TimeWheel, search_loop, next_timeout}
use novaio.TimeWheel.Linked.{has, has-first, Chain-Line}
use novaio.TimeWheel.Lists.{Lists}
use novaio.TimeWheel.Timing.{In}
use novaio.TimeWheel.Exact.{IsWheel}

-- the cell of the first array that the search looks at in round `i`
abbrev pub nth_cell : TimeWheel → ℕ → ℕ
nth_cell w i = (w.current_tick + i) % 256

module _ (time : ℕ) (w : TimeWheel) (room : w.current_tick + 256 < 2 ^ 64) where
  searched :
      (i : ℕ) → i < 256 → tv1 + bit_and ((w.current_tick + i) % 2 ^ 64) tvr_mask ≡ nth_cell w i
  searched i lt = omega (arith, bit_and_mask 8 ((w.current_tick + i) % 2 ^ 64))

  pub search_none :
      (rounds i : ℕ)
      → i + rounds ≡ 256
      → ((j : ℕ) → j < 256 → w.cells (nth_cell w j) ≡ null)
      → search_loop rounds i time w ≡ 50
  unfolding search_loop
  search_none zero i e h = refl
  search_none (suc rounds) i e h =
      rw (searched i (omega arith), h i (omega arith)) (search_none rounds (i + 1) (omega arith) h)

  search_first :
      (rounds i k : ℕ)
      → i ≤ k
      → k < i + rounds
      → i + rounds ≡ 256
      → ((j : ℕ) → j < k → w.cells (nth_cell w j) ≡ null)
      → w.cells (nth_cell w k) ≢ null
      → search_loop rounds i time w ≡ (w.node (w.cells (nth_cell w k))).expires_at - time
  unfolding search_loop
  search_first zero i k le lt e h ne = absurd (omega arith)
  search_first (suc rounds) i k le lt e h ne = elim (ℕ_discrete i k) [
    | yes here ↦
        rw (searched i (omega arith), here, ==_of_ne (w.cells (nth_cell w k)) null ne)
          (ground arith)
    | no later ↦
        rw (searched i (omega arith), h i (omega arith))
          (search_first rounds (i + 1) k (omega arith) (omega arith) (omega arith) h ne)
  ]

module _ {fuel : ℕ} {expires : Ptr → ℕ} {handles : Ptr → Handle} where
  -- If a timer is due within 256 ticks and lies in the first array, the loop may block until the
  -- tick of the nearest such timer, and not at all when that is past.
  pub next_timeout_first :
      (time now k : ℕ) (w : TimeWheel) (L : Lists)
      → IsWheel fuel expires handles now w L
      → now + 256 < 2 ^ 64
      → w.active_timers ≢ 0
      → k < 256
      → ((j : ℕ) → j < k → w.cells (nth_cell w j) ≡ null)
      → w.cells (nth_cell w k) ≢ null
      → next_timeout time w ≡ now + k - time
  unfolding next_timeout
  next_timeout_first time now k w L v room busy lt before here =
      rw (==_of_ne w.active_timers 0 busy) (
        search_first time w (omega (arith, v.holds.tick_eq)) 256 0 k (omega arith) (omega arith)
          refl before here
        ∙ ap (λ t. t - time) (v.holds.expires_eq x ∙ at_k))
    where
      c : ℕ
      c = nth_cell w k

      x : Ptr
      x = w.cells c

      in_cell : has x (L c) ≡ true
      in_cell = has-first w.node x (L c) (Chain-Line w.node c null x (L c) (v.holds.rep c)) here

      at_k : expires x ≡ now + k
      at_k = omega (arith, v.at_rest c x in_cell, v.holds.tick_eq)

  -- With the first array empty the loop may block for 50, though a timer of a later array may be
  -- due sooner: such a timer fires late.
  pub next_timeout_oversleeps :
      (time now : ℕ) (w : TimeWheel) (L : Lists) (a : Ptr)
      → IsWheel fuel expires handles now w L
      → now + 256 < 2 ^ 64
      → w.active_timers ≢ 0
      → ((j : ℕ) → j < 256 → w.cells (nth_cell w j) ≡ null)
      → In a L
      → expires a < time + 50
      → expires a < time + next_timeout time w
  unfolding next_timeout
  next_timeout_oversleeps time now w L a v room busy none i lt =
      rw (==_of_ne w.active_timers 0 busy)
        (omega (arith, search_none time w (omega (arith, v.holds.tick_eq)) 256 0 refl none))
