-- ===== src/WhenAll/Last.antt =====
-- include/novaio/when_all.hpp: which task resumes the awaiting coroutine.
use novaio.Prelude.{
  ◌^◌, ◌<◌, ◌≡◌, refl, ◌≢◌, Bool, false, List, [], ◌∷◌, arith, ◌==◌, if◌then◌else◌, ==_of_ne,
  length,
}
use novaio.Handle.{Handle, null}
use novaio.WhenAll.{
  WhenAllCounter, Resume, nothing, schedule, resume, make, await_suspend, notify, notify_each,
}

abbrev pub resume_on : Bool → Handle → Resume
resume_on sched h = if sched then schedule h else resume h

-- nothing but at the end of the list, where the last thread resumes `h`
abbrev pub last_resumes : List Bool → Handle → List Resume
last_resumes [] h = []
last_resumes (sched ∷ []) h = resume_on sched h ∷ []
last_resumes (sched ∷ sched' ∷ rest) h = nothing ∷ last_resumes (sched' ∷ rest) h

notify_each-last :
    (scheds : List Bool) (h : Handle) (c : WhenAllCounter)
    → h ≢ null
    → c.continuation ≡ h
    → c.count ≡ length scheds
    → length scheds < 2 ^ 64
    → (notify_each scheds c).1 ≡ last_resumes scheds h
unfolding notify notify_each
notify_each-last [] h c ne at n l = refl
notify_each-last (sched ∷ []) h c ne at n l = rw (n, at, ==_of_ne h null ne) refl
notify_each-last (sched ∷ sched' ∷ rest) h c ne at n l =
    let later : (c.count == 1) ≡ false = ground arith in
    let left =
      notify_each-last (sched' ∷ rest) h (notify sched c).0 ne at (omega arith) (omega arith) in
    rw (later, left) refl

-- Of the tasks of a `when_all`, in whatever order they end, the last and no other resumes the awaiting
-- coroutine, on its thread's scheduler or directly if that has none.
pub notify_each-resumes :
    (scheds : List Bool) (h : Handle)
    → h ≢ null
    → length scheds < 2 ^ 64
    → (notify_each scheds (await_suspend h (make (length scheds)))).1 ≡ last_resumes scheds h
unfolding make await_suspend
notify_each-resumes scheds h ne l = notify_each-last scheds h _ ne refl refl l
