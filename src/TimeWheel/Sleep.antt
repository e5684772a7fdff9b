-- ===== src/TimeWheel/Sleep.antt =====
-- include/novaio/time_wheel.hpp and src/time_wheel.cpp: `sleep_for`, from the `co_await` to the tick that
-- resumes the coroutine.
use novaio.Prelude.{
  ℕ, ◌+◌, ◌^◌, ◌≤◌, ◌<◌, ◌≡◌, refl, ◌≢◌, ◌↔◌, ◌⊎◌, inl, Bool, true, false, arith, ◌==◌,
  if◌then◌else◌, ==_self,
}
use novaio.Handle.{Handle}
use novaio.TimeWheel.Cells.{Ptr, null}
use novaio.TimeWheel.{TimeWheel, sleep_suspend}
use novaio.TimeWheel.Lists.{Lists}
use novaio.TimeWheel.Timing.{In}
use novaio.TimeWheel.Cascade.{Absent}
use novaio.TimeWheel.Linked.{has}
use novaio.TimeWheel.Exact.{
  IsWheel, Ticked, tick_exact, sleep_suspend-IsWheel, expires_then, handles_then,
}

-- `SleepAwaiter::await_ready`
unfoldable pub await_ready : ℕ → Bool
await_ready ms = ms == 0

-- `co_await sleep_for(ms)` of the coroutine `h`, whose node is at `p`, at the time `now`: whether it is
-- suspended, and the wheel of its thread. Without a scheduler it is suspended on no wheel.
unfoldable pub sleep_for : Bool → ℕ → ℕ → Handle → Ptr → TimeWheel → Bool × TimeWheel
sleep_for sched now ms h p w =
    if await_ready ms then (false, w) else (true, if sched then sleep_suspend now ms h p w else w)

-- A coroutine that sleeps for some time, on a thread with a scheduler, is suspended. `tick` up to a time
-- that is not past fires its node, and so schedules the coroutine, just if the time at which it is to
-- wake lies before that; otherwise the node stays on the wheel. The other timers are as `tick` leaves
-- them. The node is in no list, and the wheel has not passed the time of the `co_await`.
pub sleep_for-Ticked :
    (fuel : ℕ) (pos : 0 < fuel) (expires : Ptr → ℕ) (handles : Ptr → Handle)
    (now time ms target : ℕ) (p : Ptr) (h : Handle) (w : TimeWheel) (L : Lists)
    → IsWheel fuel expires handles now w L
    → p ≢ null
    → p < fuel
    → Absent p L
    → now ≤ time
    → 0 < ms
    → time + ms < 2 ^ 64
    → now ≤ target
    → target < 2 ^ 64
    → ((sleep_for true time ms h p w).0 ≡ true)
      × ((L' : Lists) × (f : Ticked fuel pos
            (expires_then fuel expires handles time ms p h)
            (handles_then fuel expires handles time ms p h)
            true
            now
            target
            (sleep_for true time ms h p w).1
            L')
          × ((has p f.fired ≡ true) ↔ (time + ms < target))
          × (In p f.kept ↔ (target ≤ time + ms))
          × (handles_then fuel expires handles time ms p h p ≡ h)
          × ((a : Ptr) → In a L' ↔ ((a ≡ p) ⊎ In a L)))
unfolding sleep_for await_ready
sleep_for-Ticked fuel pos expires handles now time ms target p h w L v ne low fresh le some_ms lt
      past small =
    let expires' : Ptr → ℕ = expires_then fuel expires handles time ms p h in
    let handles' : Ptr → Handle = handles_then fuel expires handles time ms p h in
    let (L', v', members) =
      sleep_suspend-IsWheel fuel expires handles time ms p h now w L v ne low fresh le lt in
    let sleeps : (ms == 0) ≡ false = ground arith in
    let f =
      tick_exact fuel pos expires' handles' true now target (sleep_suspend time ms h p w) L' past
        small v' in
    let mine : In p L' = (members p).1 (inl refl) in
    let at_p : expires' p ≡ time + ms = ground (arith, ==_self p) in
    rw sleeps (
      refl,
      (
        L',
        f,
        (
          (λ i. omega (arith, ((f.fired_iff p).0 i).1, at_p)),
          (λ l. (f.fired_iff p).1 (mine, omega (arith, at_p))),
        ),
        (
          (λ i. omega (arith, ((f.kept_iff p).0 i).1, at_p)),
          (λ l. (f.kept_iff p).1 (mine, omega (arith, at_p))),
        ),
        ground (arith, ==_self p),
        members,
      ),
    )

-- A coroutine that sleeps for no time goes on at once, and the wheel stays.
sleep_for-no_time :
    (sched : Bool) (now : ℕ) (h : Handle) (p : Ptr) (w : TimeWheel)
    → sleep_for sched now 0 h p w ≡ (false, w)
unfolding sleep_for await_ready
sleep_for-no_time sched now h p w = refl

-- On a thread without a scheduler a coroutine that sleeps is suspended, and on no wheel.
sleep_for-no_scheduler :
    (now ms : ℕ) (h : Handle) (p : Ptr) (w : TimeWheel)
    → 0 < ms
    → sleep_for false now ms h p w ≡ (true, w)
unfolding sleep_for await_ready
sleep_for-no_scheduler now ms h p w some_ms =
    let sleeps : (ms == 0) ≡ false = ground arith in rw sleeps refl
