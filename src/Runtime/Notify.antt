-- ===== src/Runtime/Notify.antt =====
-- src/runtime.cpp: a message of `notify_target_ring`, from the thread that sends it to `poll` on the
-- thread of the ring that it names. `post` is the kernel's: the completion that a message leads to.
use novaio.Prelude.{
  ℕ, zero, suc, ◌+◌, ◌-◌, ◌%◌, ◌^◌, ◌≤◌, ◌<◌, bit_or, ◌≡◌, refl, inl, inr, Bool, true, false, ◌||◌,
  Option, none, some, List, [], ◌∷◌, arith, ◌==◌, if◌then◌else◌, ◌>>=◌, Bool-cases,
}
use novaio.IoEngine.{Cqe, Thread, Ptr, handle_cqe, tag_coro, tag_inbox}
use novaio.IoEngine.Submit.{Prep, msg_ring, send_msg_ring}
use novaio.IoEngine.Tags.{counted, untag-bit_or}
use novaio.Scheduler.{schedule}
use novaio.Runtime.{Notified, by_engine, by_own_ring, dropped, notify_target_ring}

-- what comes of a message: it is sent to a ring with its data, it is written through a null pointer, or
-- nothing is sent
pub data Sent : Type 0 where
  delivers : ℕ → ℕ → Sent
  writes_through_null nothing_sent : Sent

-- the ring and the data of a message, if an entry is one
abbrev pub message_of : Prep → Sent
message_of (msg_ring fd msg) = delivers fd msg
message_of p = nothing_sent

abbrev pub sent : Notified → Sent
sent (by_engine none) = writes_through_null
sent (by_engine (some sqe)) = message_of sqe.prep
sent (by_own_ring fd msg) = delivers fd msg
sent dropped = nothing_sent

-- what comes of a message without an entry, by whether the thread has a scheduler
abbrev pub unsent : Bool → Sent
unsent current_sched = if current_sched then writes_through_null else nothing_sent

notify-sent :
    (current_sched granted granted_again : Bool) (fd msg : ℕ)
    → sent (notify_target_ring current_sched granted granted_again fd msg)
      ≡ (if granted || granted_again then delivers fd msg else unsent current_sched)
unfolding notify_target_ring send_msg_ring
notify-sent true true granted_again fd msg = refl
notify-sent true false true fd msg = refl
notify-sent true false false fd msg = refl
notify-sent false true granted_again fd msg = refl
notify-sent false false true fd msg = refl
notify-sent false false false fd msg = refl

module _ (invoke : Ptr → ℕ → ℕ → Thread → Thread) (process_inbox : Thread → Thread)
    (post : ℕ → Cqe) where
  -- A message goes to the ring that it is for, from a thread with a scheduler and from any other, if
  -- the first attempt or the second gets an entry of the sending ring; otherwise the engine of the scheduler
  -- writes through a null pointer, and a thread without one sends nothing. At the ring
  -- `poll` schedules the coroutine that the message of `unlock` names, whose frame lies on 8 bytes, and
  -- for the message of `dispatch_on` it empties the inbox. The completion of a message has its data.
  pub notify-Arrives :
      (current_sched granted granted_again : Bool) (fd coro : ℕ) (t : Thread)
      → ((msg : ℕ) → (post msg).user_data ≡ msg)
      → coro < 2 ^ 64
      → coro % 8 ≡ 0
      → (sent (notify_target_ring current_sched granted granted_again fd (bit_or coro tag_coro)) ≡ (
          if granted || granted_again
          then delivers fd (bit_or coro tag_coro)
          else unsent current_sched))
        × (handle_cqe invoke process_inbox (post (bit_or coro tag_coro)) t
            ≡ some (record (counted t) { scheduler = schedule coro t.scheduler }))
        × (sent (notify_target_ring current_sched granted granted_again fd tag_inbox)
            ≡ (if granted || granted_again then delivers fd tag_inbox else unsent current_sched))
        × (handle_cqe invoke process_inbox (post tag_inbox) t ≡ some (process_inbox (counted t)))
  unfolding handle_cqe
  notify-Arrives current_sched granted granted_again fd coro t posts l aligned =
      let (tag, at) = untag-bit_or coro tag_coro l aligned (omega arith) in
      (
        notify-sent current_sched granted granted_again fd (bit_or coro tag_coro),
        rw (posts (bit_or coro tag_coro), tag, at) refl,
        notify-sent current_sched granted granted_again fd tag_inbox,
        rw (posts tag_inbox) refl,
      )

abbrev sum : List ℕ → ℕ
sum [] = 0
sum (n ∷ ns) = n + sum ns

-- The end of `notify_target_ring` on a thread without a scheduler, which takes the completions off its
-- own ring: `pending` are there, and `arrivals` says how many come in during each turn. The result is the
-- number that is taken off.
unfoldable pub drain : ℕ → List ℕ → ℕ → Option ℕ
drain zero arrivals pending = none
drain (suc fuel) [] pending =
    let rest = drain fuel [] (pending - 1) in
    if pending == 0 then some 0 else (do n ← rest; some (suc n))
drain (suc fuel) (more ∷ arrivals) pending =
    let rest = drain fuel arrivals (pending - 1 + more) in
    if pending == 0 then some 0 else (do n ← rest; some (suc n))

-- The loop ends, if the fuel exceeds the completions that are there and those that arrive. It takes off
-- all that were there, and no more than there are.
pub drain-ends :
    (fuel : ℕ) (arrivals : List ℕ) (pending : ℕ)
    → pending + sum arrivals < fuel
    → (n : ℕ) × (drain fuel arrivals pending ≡ some n)
      × (pending ≤ n)
      × (n ≤ pending + sum arrivals)
unfolding drain
drain-ends zero arrivals pending enough = absurd (omega arith)
drain-ends (suc fuel) [] pending enough = elim (Bool-cases (pending == 0)) [
  | inl e ↦ rw e (0, refl, ground arith, omega arith)
  | inr ne ↦
      let (n, runs, most, least) = drain-ends fuel [] (pending - 1) (ground arith) in
      rw (ne, runs) (suc n, refl, ground arith, ground arith)
]
drain-ends (suc fuel) (more ∷ arrivals) pending enough = elim (Bool-cases (pending == 0)) [
  | inl e ↦ rw e (0, refl, ground arith, omega arith)
  | inr ne ↦
      let (n, runs, most, least) = drain-ends fuel arrivals (pending - 1 + more) (ground arith) in
      rw (ne, runs) (suc n, refl, ground arith, ground arith)
]
