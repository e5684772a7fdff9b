-- ===== src/IoEngine/Completion.antt =====
-- include/novaio/io_context.hpp and `poll`: the context of an operation from its submission to its
-- deletion.
use novaio.Prelude.{
  ◌≡◌, refl, ◌≢◌, inl, inr, true, false, Option, none, some, ◌>>=◌, ==_self, ==_of_ne, Option-cases,
}
use novaio.Handle.{Handle, null}
use novaio.Scheduler.{Scheduler, schedule}
use novaio.IoEngine.{
  Ptr, IoContext, IoResult, Cqe, Thread, submit, await_suspend, await_resume, move_construct,
  destroy_awaiter, complete_io,
}

-- The orders of events for the operation whose context is made at `p`, awaited by `h`.
abbrev pub completed : Ptr → Handle → Cqe → Thread → Option Thread
completed p h cqe t = do t ← await_suspend h p (submit p t).0; complete_io p cqe t

abbrev pub resumed : Ptr → Handle → Cqe → Thread → Option (IoResult × Thread)
resumed p h cqe t = completed p h cqe t >>= await_resume p

abbrev pub cancelled : Ptr → Handle → Cqe → Thread → Option Thread
cancelled p h cqe t = do
  t ← await_suspend h p (submit p t).0
  t ← destroy_awaiter p t
  complete_io p cqe t

abbrev pub destroyed_late : Ptr → Handle → Cqe → Thread → Option Thread
destroyed_late p h cqe t = completed p h cqe t >>= destroy_awaiter p

abbrev pub awaited_late : Ptr → Handle → Cqe → Thread → Option Thread
awaited_late p h cqe t = complete_io p cqe (submit p t).0 >>= await_suspend h p

-- Something ran through, to the thread `t` but for the context at `p`, which is `c`, and the
-- scheduler, which is `s`.
abbrev pub Ends : Ptr → Thread → Option IoContext → Scheduler → Option Thread → Type 0
Ends p t c s none = ⊥
Ends p t c s (some t') =
    (t'.contexts p ≡ c)
    × ((q : Ptr) → q ≢ p → t'.contexts q ≡ t.contexts q)
    × (t'.scheduler ≡ s)
    × (t'.io_events ≡ t.io_events)

abbrev pub Returns : IoResult → Option (IoResult × Thread) → Type 0
Returns r none = ⊥
Returns r (some (r', t')) = r' ≡ r

-- An operation that is awaited, completes and is resumed gives its completion's result and has
-- scheduled the awaiting coroutine once. Its context is deleted, and no other context changes.
pub resumed-Ends :
    (p : Ptr) (h : Handle) (cqe : Cqe) (t : Thread)
    → h ≢ null
    → Returns (record { res = cqe.res; flags = cqe.flags }) (resumed p h cqe t)
      × Ends p t none (schedule h t.scheduler) (resumed p h cqe t >>= λ r. some r.1)
unfolding submit await_suspend complete_io await_resume
resumed-Ends p h cqe t ne =
    rw (==_self p, complete_io, ==_self p, ==_of_ne h null ne, ==_self p)
      (refl, (rw (==_self p), (λ q other. rw (==_of_ne q p other)), refl, refl))

-- An operation whose awaiter is destroyed before its completion resumes nothing, and `poll` deletes
-- its context.
pub cancelled-Ends :
    (p : Ptr) (h : Handle) (cqe : Cqe) (t : Thread)
    → p ≢ 0
    → Ends p t none t.scheduler (cancelled p h cqe t)
unfolding submit await_suspend complete_io destroy_awaiter
cancelled-Ends p h cqe t ne =
    rw (==_self p, ==_of_ne p 0 ne, ==_self p, complete_io, ==_self p)
      (rw (==_self p), (λ q other. rw (==_of_ne q p other)), refl, refl)

-- Two orders that `SafeIoAwaiter` does not handle. If it is destroyed between the completion and the
-- resumption, its context stays for good; and if the operation completes before it is awaited, the
-- awaiting coroutine is not scheduled.
pub unhandled-Ends :
    (p : Ptr) (h : Handle) (cqe : Cqe) (t : Thread)
    → p ≢ 0
    → h ≢ null
    → Ends p t
        (some (record { res = cqe.res; flags = cqe.flags; coro = h; cancelled = true }))
        (schedule h t.scheduler)
        (destroyed_late p h cqe t)
      × Ends p t
          (some (record { res = cqe.res; flags = cqe.flags; coro = h; cancelled = false }))
          t.scheduler
          (awaited_late p h cqe t)
unfolding submit await_suspend complete_io destroy_awaiter
unhandled-Ends p h cqe t np nh =
    rw
      (
        ==_self p,
        complete_io,
        ==_self p,
        ==_of_ne h null nh,
        destroy_awaiter,
        ==_of_ne p 0 np,
        ==_self p,
      )
      (
        (rw (==_self p), (λ q other. rw (==_of_ne q p other)), refl, refl),
        (refl, (λ q other. rw (==_of_ne q p other)), refl, refl),
      )

-- The destructors of an awaiter that was moved from and of the one that it was moved to do what the
-- destructor of the first would have done.
destroy_awaiter-move_construct :
    (ctx : Ptr) (t : Thread)
    → (destroy_awaiter (move_construct ctx).0 t >>= destroy_awaiter (move_construct ctx).1)
      ≡ destroy_awaiter ctx t
unfolding move_construct destroy_awaiter
destroy_awaiter-move_construct ctx t = elim (Option-cases (destroy_awaiter ctx t)) [
  | inl fault ↦ rw fault refl
  | inr (t', runs) ↦ rw runs refl
]
