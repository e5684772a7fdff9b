-- ===== src/CoMutex.antt =====
-- include/novaio/comutex.hpp and src/comutex.cpp: the coroutine mutex. Awaiters live in coroutine
-- frames and are named by their addresses. An atomic operation is one step, and `unlock` is given the
-- awaiters that arrive between its steps.
pub mod Trail
pub mod Waits
pub mod Fifo
pub mod Drain
pub mod Holders
mod Tests
use novaio.Prelude.{
  ℕ, zero, suc, bit_or, ◌⊎◌, inl, inr, Bool, true, false, not, ◌&&◌, Option, none, some, List, [],
  ◌∷◌, ◌==◌, if◌then◌else◌, ◌>>=◌,
}
use novaio.Handle.{Handle, null}

abbrev pub Ptr : Type 0
Ptr = ℕ

abbrev pub nullptr : Ptr
nullptr = 0

abbrev pub unlocked : ℕ
unlocked = 0

abbrev pub locked_no_waiters : ℕ
locked_no_waiters = 1

pub record Awaiter : Type 0 where
  pub awaiting_coroutine : Handle
  pub scheduler : Ptr

-- `next` is the field `next_` of the awaiters, apart from their other fields.
pub record CoMutex : Type 0 where
  pub state : ℕ  -- uintptr_t
  pub waiters_head : Ptr
  pub next : Ptr → Ptr
  pub awaiters : Ptr → Awaiter

-- an awaiter that begins to wait: its address, and what it stores in itself
pub record Arrival : Type 0 where
  pub address : Ptr
  pub awaiter : Awaiter

abbrev pub put {ℓ} : {A : Type ℓ} → (ℕ → A) → ℕ → A → ℕ → A
put f p a q = if q == p then a else f q

-- One turn of the loop of `await_suspend`, with `old_state` as last read: the new mutex, and what
-- `await_suspend` returns, or the state to try again with.
unfoldable pub attempt : Ptr → ℕ → CoMutex → CoMutex × (Bool ⊎ ℕ)
attempt self old_state m =
    if old_state == unlocked
    then (if m.state == old_state
        then (record m { state = locked_no_waiters }, inl false)
        else (m, inr m.state))
    else (let m' = record m {
      next = put m.next self (if old_state == locked_no_waiters then nullptr else old_state);
    } in
        if m.state == old_state then (record m' { state = self }, inl true) else (m', inr m.state))

-- `await_suspend`, whose last turn reads the state that it then exchanges
unfoldable pub await_suspend : Arrival → CoMutex → CoMutex × (Bool ⊎ ℕ)
await_suspend a m =
    attempt a.address m.state (record m { awaiters = put m.awaiters a.address a.awaiter })

unfoldable pub arrive : List Arrival → CoMutex → CoMutex
arrive [] m = m
arrive (a ∷ later) m = arrive later (await_suspend a m).0

-- The loop of `unlock` that reverses the list, which runs out of fuel on a longer list.
unfoldable pub reverse_loop : ℕ → Ptr → Ptr → (Ptr → Ptr) → Option (Ptr × (Ptr → Ptr))
reverse_loop zero current prev next = none
reverse_loop (suc fuel) current prev next =
    let rest = reverse_loop fuel (next current) current (put next current prev) in
    if current == nullptr then some (prev, next) else rest

-- what `unlock` does with the awaiter that it takes: it goes to this thread's scheduler, or a message
-- goes to the ring of the scheduler `target`
pub data Wake : Type 0 where
  nothing : Wake
  schedule : Handle → Wake
  notify : Ptr → ℕ → Wake

abbrev pub tag_coro : ℕ
tag_coro = 2

unfoldable pub wake_of : Ptr → Awaiter → Wake
wake_of current_sched to_resume =
    if (to_resume.scheduler == current_sched) && not (current_sched == nullptr)
    then schedule to_resume.awaiting_coroutine
    else if not (to_resume.scheduler == nullptr)
    then notify to_resume.scheduler (bit_or to_resume.awaiting_coroutine tag_coro)
    else nothing

-- The end of `unlock`, from the test of `waiters_head_` on.
unfoldable pub resume_first : Ptr → CoMutex → CoMutex × Wake
resume_first current_sched m = if m.waiters_head == nullptr then (m, nothing) else (
  record m { waiters_head = m.next m.waiters_head },
  wake_of current_sched (m.awaiters m.waiters_head),
)

-- The awaiters of `old_state`, in the order of their arrival, become those of `waiters_head_`.
unfoldable pub take_waiters : ℕ → ℕ → CoMutex → Option CoMutex
take_waiters fuel old_state m = do
  (prev, next) ← reverse_loop fuel old_state nullptr m.next
  some (record m { waiters_head = prev; next = next })

-- `unlock`: `before` arrive between the first exchange and the comparison, and `after` between the
-- comparison that fails and the second exchange.
unfoldable pub unlock : ℕ → Ptr → List Arrival → List Arrival → CoMutex → Option (CoMutex × Wake)
unlock fuel current_sched before after m =
    if not (m.waiters_head == nullptr)
    then some (resume_first current_sched m)
    else (let old_state = m.state in
        let m1 = record m { state = locked_no_waiters } in
        let m2 = arrive before m1 in
        let m3 = arrive after m2 in
        let taken = take_waiters fuel old_state m1 in
        let late = take_waiters fuel m3.state (record m3 { state = locked_no_waiters }) in
        if old_state == locked_no_waiters
        then (if m2.state == locked_no_waiters
            then some (record m2 { state = unlocked }, nothing)
            else (do m' ← late; some (resume_first current_sched m')))
        else (do m' ← taken; some (resume_first current_sched m')))
