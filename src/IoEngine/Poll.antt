-- ===== src/IoEngine/Poll.antt =====
-- src/io_engine.cpp: `poll` on the completions of several operations with a context each.
use novaio.Prelude.{
  ℕ, ◌+◌, ◌%◌, ◌^◌, ◌<◌, ◌≡◌, refl, ◌∙◌, ◌≢◌, inl, inr, false, Option, none, some, List, [], ◌∷◌,
  map, arith, ◌==◌, if◌then◌else◌, ==_self, ==_of_ne, Bool-cases, length, has,
}
use novaio.Handle.{Handle, null}
use novaio.IoEngine.{Ptr, IoContext, Cqe, Thread, tag_io, complete_io, poll}
use novaio.IoEngine.Tags.{counted, completion, handle_cqe-Dispatches}
use novaio.Scheduler.{Scheduler, schedule}
use novaio.Scheduler.Run.{schedule_all}

-- an operation in flight, with its context, and its result when it completes
pub record Operation : Type 0 where
  pub ctx : Ptr
  pub context : IoContext
  pub res : ℕ
  pub flags : ℕ

abbrev pub completions : List Operation → List Cqe
completions = map (λ o. completion o.ctx tag_io o.res o.flags)

abbrev pub contexts_of : List Operation → List Ptr
contexts_of = map (λ o. o.ctx)

-- operations whose coroutines are suspended or have given them up, in different contexts
abbrev pub AreLive : Thread → List Operation → Type 0
AreLive t [] = Unit
AreLive t (o ∷ os) =
    (0 < o.ctx)
    × (o.ctx < 2 ^ 64)
    × (o.ctx % 8 ≡ 0)
    × (t.contexts o.ctx ≡ some o.context)
    × (o.context.coro ≢ null)
    × (has o.ctx (contexts_of os) ≡ false)
    × AreLive t os

-- what becomes of a context: it is deleted if its operation was given up, and has the result if not
abbrev pub after : Operation → Option IoContext
after o =
    if o.context.cancelled then none else some (record o.context { res = o.res; flags = o.flags })

abbrev pub resumes : List Operation → List Handle
resumes [] = []
resumes (o ∷ os) = if o.context.cancelled then resumes os else o.context.coro ∷ resumes os

abbrev pub AreDone : Thread → List Operation → Type 0
AreDone t [] = Unit
AreDone t (o ∷ os) = (t.contexts o.ctx ≡ after o) × AreDone t os

-- the thread after the completion of one operation
abbrev completed : Operation → Thread → Thread
completed o t = record t {
  contexts = λ q. if q == o.ctx then after o else t.contexts q;
  scheduler = if o.context.cancelled then t.scheduler else schedule o.context.coro t.scheduler;
  io_events = (t.io_events + 1) % 2 ^ 64;
}

complete_io-completed :
    (o : Operation) (t : Thread)
    → t.contexts o.ctx ≡ some o.context
    → o.context.coro ≢ null
    → complete_io o.ctx (completion o.ctx tag_io o.res o.flags) (counted t) ≡ some (completed o t)
unfolding complete_io
complete_io-completed o t live ne = elim (Bool-cases o.context.cancelled) [
  | inl given_up ↦ rw (live, given_up) refl
  | inr awaited ↦ rw (live, awaited, ==_of_ne o.context.coro null ne) refl
]

AreLive-completed :
    (o : Operation) (t : Thread) (os : List Operation)
    → has o.ctx (contexts_of os) ≡ false
    → AreLive t os
    → AreLive (completed o t) os
AreLive-completed o t [] out live = tt
AreLive-completed o t (p ∷ os) out (pos, l, aligned, here, ne, new, live) =
    let other : (p.ctx == o.ctx) ≡ false = ground arith in
    (pos, l, aligned, rw other here, ne, new, AreLive-completed o t os (ground arith) live)

schedule_all-resumes :
    (o : Operation) (os : List Operation) (s : Scheduler)
    → schedule_all (resumes os) (if o.context.cancelled then s else schedule o.context.coro s)
      ≡ schedule_all (resumes (o ∷ os)) s
unfolding schedule_all
schedule_all-resumes o os s = elim (Bool-cases o.context.cancelled) [
  | inl given_up ↦ rw given_up refl
  | inr awaited ↦ rw awaited refl
]

module _ (invoke : Ptr → ℕ → ℕ → Thread → Thread) (process_inbox : Thread → Thread) where
  polled :
      (os : List Operation) (t : Thread)
      → t.io_events < 2 ^ 64
      → AreLive t os
      → (t' : Thread) × (poll invoke process_inbox (completions os) t ≡ some (t', length os))
        × AreDone t' os
        × (t'.scheduler ≡ schedule_all (resumes os) t.scheduler)
        × (t'.io_events ≡ (t.io_events + length os) % 2 ^ 64)
        × ((p : Ptr) → has p (contexts_of os) ≡ false → t'.contexts p ≡ t.contexts p)
  unfolding poll schedule_all
  polled [] t small live = (t, refl, tt, refl, omega arith, λ p out. refl)
  polled (o ∷ os) t small (pos, l, aligned, here, ne, new, live) =
      let (io, multi, coro, inbox) =
        handle_cqe-Dispatches invoke process_inbox o.ctx o.res o.flags t pos l aligned in
      let (t', polls, done, scheduled, count, stay) =
        polled os (completed o t) (omega arith) (AreLive-completed o t os new live) in
      (
        t',
        rw (io ∙ complete_io-completed o t here ne, polls) refl,
        (stay o.ctx new ∙ rw (==_self o.ctx) refl, done),
        scheduled ∙ schedule_all-resumes o os t.scheduler,
        omega (arith, count),
        λ p out.
            stay p (ground arith)
            ∙ (let other : (p == o.ctx) ≡ false = ground arith in rw other refl),
      )

  -- `poll` on the completions of operations in different contexts touches no deleted context. Each
  -- operation's context has its result, or is deleted if the operation was given up; the coroutines
  -- that wait are scheduled in the order of the completions, which are all counted and taken off the
  -- ring; and any other context stays as it was.
  pub poll-AreDone :
      (os : List Operation) (t : Thread) (p : Ptr)
      → t.io_events < 2 ^ 64
      → AreLive t os
      → has p (contexts_of os) ≡ false
      → (t' : Thread) × (poll invoke process_inbox (completions os) t ≡ some (t', length os))
        × AreDone t' os
        × (t'.scheduler ≡ schedule_all (resumes os) t.scheduler)
        × (t'.io_events ≡ (t.io_events + length os) % 2 ^ 64)
        × (t'.contexts p ≡ t.contexts p)
  poll-AreDone os t p small live out =
      let (t', polls, done, scheduled, count, stay) = polled os t small live in
      (t', polls, done, scheduled, count, stay p out)
