-- ===== src/TimeWheel.antt =====
-- include/novaio/time_wheel.hpp and src/time_wheel.cpp: the hierarchical time wheel. A timer node
-- lies in the frame of the coroutine that sleeps; the model has a memory of nodes, and every write
-- through a pointer is a write to it, in the order of the source.
pub mod Cells
pub mod Linked
pub mod Lists
pub mod Add
pub mod Cascade
pub mod Round
pub mod Places
pub mod Timing
pub mod Due
pub mod Exact
pub mod Unlink
pub mod Remove
pub mod Timeout
pub mod Stale
pub mod Sleep
mod Tests
use novaio.Prelude.{
  ℕ, zero, suc, ◌+◌, ◌-◌, ◌*◌, ◌%◌, ◌^◌, bit_and, Bool, true, false, not, ◌&&◌, Option, none, some,
  List, [], ◌∷◌, ◌++◌, ltb, ◌==◌, if◌then◌else◌, ◌>>=◌,
}
use novaio.Handle.{Handle}
use Cells.{
  Ptr, null, tvr_bits, tvn_bits, tvr_size, tvr_mask, tvn_mask, tv1, tv2, tv3, tv4, tv5, cell_of,
  shr,
}

pub record TimerNode : Type 0 where
  pub expires_at : ℕ
  pub handle : Handle
  pub next : Ptr
  pub prev : Ptr
  pub head_ptr : Option ℕ  -- the cell that heads the node's list; `none` is the null pointer

-- `cells` are `tv1_` to `tv5_`; `node` is the memory in which the timer nodes lie.
pub record TimeWheel : Type 0 where
  pub cells : ℕ → Ptr
  pub current_tick : ℕ  -- uint64_t
  pub active_timers : ℕ  -- uint64_t
  pub node : Ptr → TimerNode

-- A new wheel, over the memory `node`.
unfoldable pub make : (Ptr → TimerNode) → TimeWheel
make node = record { cells = λ c. null; current_tick = 0; active_timers = 0; node = node }

-- `*p = n`, and `*head = p`
abbrev pub store : Ptr → TimerNode → TimeWheel → TimeWheel
store p n w = record w { node = λ q. if q == p then n else w.node q }

abbrev pub set_cell : ℕ → Ptr → TimeWheel → TimeWheel
set_cell c p w = record w { cells = λ d. if d == c then p else w.cells d }

unfoldable pub add_timer : Ptr → TimeWheel → TimeWheel
add_timer p w =
    let w = record w { active_timers = (w.active_timers + 1) % 2 ^ 64 } in
    let expires = (w.node p).expires_at in
    let idx = (expires + 2 ^ 64 - w.current_tick) % 2 ^ 64 in
    let head = cell_of expires idx in
    let w = store p (record (w.node p) { next = w.cells head }) w in
    let w =
      if w.cells head == null
      then w
      else store (w.cells head) (record (w.node (w.cells head)) { prev = p }) w in
    let w = store p (record (w.node p) { prev = null }) w in
    let w = store p (record (w.node p) { head_ptr = some head }) w in set_cell head p w

-- `node->head_ptr && *(node->head_ptr) == node`
abbrev pub heads : TimeWheel → Ptr → Option ℕ → Bool
heads w p none = false
heads w p (some c) = w.cells c == p

-- `*(node->head_ptr) = q`, made only where `head_ptr` is not null
abbrev pub set_head : Option ℕ → Ptr → TimeWheel → TimeWheel
set_head none q w = w
set_head (some c) q w = set_cell c q w

abbrev pub is_some {ℓ} : {A : Type ℓ} → Option A → Bool
is_some none = false
is_some (some a) = true

-- `if (node->head_ptr) active_timers_--`
unfoldable pub uncount : Ptr → TimeWheel → TimeWheel
uncount p w =
    if is_some (w.node p).head_ptr
    then record w { active_timers = (w.active_timers + 2 ^ 64 - 1) % 2 ^ 64 }
    else w

-- what points forward to the node, its predecessor or its cell, points past it
unfoldable pub link_past : Ptr → TimeWheel → TimeWheel
link_past p w =
    if not ((w.node p).prev == null)
    then store (w.node p).prev (record (w.node (w.node p).prev) { next = (w.node p).next }) w
    else if heads w p (w.node p).head_ptr
    then set_head (w.node p).head_ptr (w.node p).next w
    else w

-- and so does what points back to it
unfoldable pub link_back : Ptr → TimeWheel → TimeWheel
link_back p w =
    if (w.node p).next == null
    then w
    else store (w.node p).next (record (w.node (w.node p).next) { prev = (w.node p).prev }) w

unfoldable pub clear_links : Ptr → TimeWheel → TimeWheel
clear_links p w =
    let w = store p (record (w.node p) { head_ptr = none }) w in
    let w = store p (record (w.node p) { prev = null }) w in
    store p (record (w.node p) { next = null }) w

unfoldable pub remove_timer : Ptr → TimeWheel → TimeWheel
remove_timer p w = clear_links p (link_back p (link_past p (uncount p w)))

-- The loop of `cascade`; `none` if the fuel runs out.
unfoldable pub cascade_loop : ℕ → Ptr → TimeWheel → Option TimeWheel
cascade_loop zero curr w = none
cascade_loop (suc fuel) curr w =
    let rest = cascade_loop fuel (w.node curr).next (add_timer curr w) in
    if curr == null then some w else rest

unfoldable pub cascade : ℕ → ℕ → TimeWheel → Option TimeWheel
cascade fuel cell w = cascade_loop fuel (w.cells cell) (set_cell cell null w)

-- The nested cascades of `tick`, at a tick that is a multiple of `TVR_SIZE`.
unfoldable pub cascades : ℕ → TimeWheel → Option TimeWheel
cascades fuel w =
    let i2 = bit_and (shr w.current_tick tvr_bits) tvn_mask in
    let i3 = bit_and (shr w.current_tick (tvr_bits + tvn_bits)) tvn_mask in
    let i4 = bit_and (shr w.current_tick (tvr_bits + 2 * tvn_bits)) tvn_mask in
    let i5 = bit_and (shr w.current_tick (tvr_bits + 3 * tvn_bits)) tvn_mask in
    do
      w ← cascade fuel (tv2 + i2) w
      if not (i2 == 0) then some w else do
        w ← cascade fuel (tv3 + i3) w
        if not (i3 == 0) then some w else do
          w ← cascade fuel (tv4 + i4) w
          if not (i4 == 0) then some w else cascade fuel (tv5 + i5) w

-- The inner loop of `tick`: each node leaves the wheel, and its handle is scheduled if the thread
-- has a scheduler. The result holds the scheduled handles in order.
unfoldable pub fire_loop : ℕ → Bool → Ptr → TimeWheel → Option (TimeWheel × List Handle)
fire_loop zero sched curr w = none
fire_loop (suc fuel) sched curr w =
    let rest = (do
      (w', hs) ←
          fire_loop fuel sched (w.node curr).next
            (store curr (record (w.node curr) { head_ptr = none }) w)
      some (w', if sched then (w.node curr).handle ∷ hs else hs)) in
    if curr == null then some (w, []) else rest

-- One round of the outer loop of `tick`.
unfoldable pub round : ℕ → Bool → TimeWheel → Option (TimeWheel × List Handle)
round fuel sched w =
    let index = bit_and w.current_tick tvr_mask in
    do
      w ← if index == 0 && ltb 0 w.current_tick then cascades fuel w else some w
      (w, hs) ← fire_loop fuel sched (w.cells (tv1 + index)) (set_cell (tv1 + index) null w)
      some (record w { current_tick = (w.current_tick + 1) % 2 ^ 64 }, hs)

-- The outer loop, `rounds` being its fuel and `fuel` that of the loops inside.
unfoldable pub tick_loop : ℕ → ℕ → Bool → ℕ → TimeWheel → Option (TimeWheel × List Handle)
tick_loop zero fuel sched current_time w =
    if ltb w.current_tick current_time then none else some (w, [])
tick_loop (suc rounds) fuel sched current_time w =
    let rest = (do
      (w, hs) ← round fuel sched w
      (w, hs') ← tick_loop rounds fuel sched current_time w
      some (w, hs ++ hs')) in
    if ltb w.current_tick current_time then rest else some (w, [])

-- A round adds one to the tick, so there are at most as many rounds as ticks to go.
unfoldable pub tick : ℕ → Bool → ℕ → TimeWheel → Option (TimeWheel × List Handle)
tick fuel sched current_time w = tick_loop (current_time - w.current_tick) fuel sched current_time w

-- The loop of `next_timeout`, with the rounds left and the round's number.
unfoldable pub search_loop : ℕ → ℕ → ℕ → TimeWheel → ℕ
search_loop zero i current_time w = 50
search_loop (suc rounds) i current_time w =
    let index = bit_and ((w.current_tick + i) % 2 ^ 64) tvr_mask in
    let rest = search_loop rounds (i + 1) current_time w in
    if w.cells (tv1 + index) == null
    then rest
    else let expires = (w.node (w.cells (tv1 + index))).expires_at in
      if ltb current_time expires then expires - current_time else 0

unfoldable pub next_timeout : ℕ → TimeWheel → ℕ
unfolding search_loop
next_timeout current_time w =
    if w.active_timers == 0 then 2 ^ 64 - 1 else search_loop tvr_size 0 current_time w

-- `SleepAwaiter::await_suspend` on a thread whose scheduler reads the time `now`.
unfoldable pub sleep_suspend : (now ms : ℕ) → Handle → Ptr → TimeWheel → TimeWheel
sleep_suspend now ms h p w =
    let w = store p (record (w.node p) { expires_at = (now + ms) % 2 ^ 64 }) w in
    let w = store p (record (w.node p) { handle = h }) w in add_timer p w
