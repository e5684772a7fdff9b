-- ===== src/Event/Resume.antt =====
-- include/novaio/event.hpp: where the awaiters go on that `set` takes. A scheduler is named by its
-- address, 0 for null.
use novaio.Prelude.{
  ℕ, ◌≡◌, refl, sym, ◌≢◌, inl, inr, not, ◌&&◌, List, [], ◌∷◌, ◌==◌, if◌then◌else◌, eq_of_==,
  ne_of_==, ==_of_ne, Bool-cases, All,
}
use novaio.Handle.{Handle, null}
use novaio.Event.{Ptr}

pub record Awaiter : Type 0 where
  pub awaiting_coroutine : Handle
  pub scheduler : Ptr

-- what `resume_waiter` does: it schedules the coroutine on this thread, dispatches that to the core of the
-- given number, or resumes the coroutine at once
pub data Resumed : Type 0 where
  ignored : Resumed
  scheduled : Handle → Resumed
  dispatched : ℕ → Handle → Resumed
  resumed : Handle → Resumed

-- `current` is the thread's scheduler, and `id` what `Scheduler::id` returns.
module _ (current : Ptr) (id : Ptr → ℕ) where
  unfoldable pub resume_waiter : Ptr → Handle → Resumed
  resume_waiter scheduler coro =
      if coro == null
      then ignored
      else if not (scheduler == 0) && (current == scheduler)
      then scheduled coro
      else if not (scheduler == 0)
      then dispatched (id scheduler) coro
      else resumed coro

  -- the loop of `set`
  unfoldable pub resume_waiters : List Awaiter → List Resumed
  resume_waiters [] = []
  resume_waiters (a ∷ waiters) =
      resume_waiter a.scheduler a.awaiting_coroutine ∷ resume_waiters waiters

  -- where an awaiter is to go on: on the thread on which it was suspended, or at once if that had no
  -- scheduler
  abbrev pub GoesOn : Awaiter → Resumed → Type 0
  GoesOn a ignored = ⊥
  GoesOn a (scheduled h) = (h ≡ a.awaiting_coroutine) × (a.scheduler ≡ current)
  GoesOn a (dispatched core h) =
      (h ≡ a.awaiting_coroutine) × (core ≡ id a.scheduler) × (a.scheduler ≢ current)
  GoesOn a (resumed h) = (h ≡ a.awaiting_coroutine) × (a.scheduler ≡ 0)

  abbrev pub AllGoOn : List Awaiter → List Resumed → Type 0
  AllGoOn [] [] = Unit
  AllGoOn (a ∷ waiters) (r ∷ rs) = GoesOn a r × AllGoOn waiters rs
  AllGoOn _ _ = ⊥

  resume_waiter-GoesOn :
      (a : Awaiter)
      → a.awaiting_coroutine ≢ null
      → GoesOn a (resume_waiter a.scheduler a.awaiting_coroutine)
  unfolding resume_waiter
  resume_waiter-GoesOn a ne =
      rw (==_of_ne a.awaiting_coroutine null ne) (elim (Bool-cases (a.scheduler == 0)) [
        | inl z ↦ rw z (refl, eq_of_== a.scheduler 0 z)
        | inr n ↦ rw n (elim (Bool-cases (current == a.scheduler)) [
          | inl e ↦ rw e (refl, sym (eq_of_== current a.scheduler e))
          | inr d ↦ rw d (refl, refl, λ e. ne_of_== current a.scheduler d (sym e))
        ])
      ])

  -- Every awaiter that `set` takes goes on where it was suspended: one of this thread is scheduled, one of
  -- another thread is dispatched to its core, and one of a thread without a scheduler is resumed.
  pub resume_waiters-AllGoOn :
      (waiters : List Awaiter)
      → All (λ a. a.awaiting_coroutine ≢ null) waiters
      → AllGoOn waiters (resume_waiters waiters)
  unfolding resume_waiters
  resume_waiters-AllGoOn [] all = tt
  resume_waiters-AllGoOn (a ∷ waiters) (ne, all) =
      (resume_waiter-GoesOn a ne, resume_waiters-AllGoOn waiters all)
