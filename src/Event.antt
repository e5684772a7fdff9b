-- ===== src/Event.antt =====
-- include/novaio/event.hpp: a flag that coroutines wait for, as a step relation on the shared state.
-- An atomic operation, or what `mutex_` guards between two of them, is one step.
pub mod Wakeups
pub mod Resume
mod Tests
use novaio.Prelude.{
  ℕ, ◌≡◌, Bool, true, false, Option, none, some, List, [], ◌∷◌, ◌++◌, if◌then◌else◌,
}

abbrev pub Ptr : Type 0
Ptr = ℕ

-- Where the call of `set` stands that found the flag clear: in its loop with the awaiters that it took
-- and has not resumed, which the source links by `next_`.
pub data Setter : Type 0 where
  not_called taking : Setter
  resuming : List Ptr → Setter
  returned : Setter

-- `holder` is the awaiter that holds `mutex_` and has read the flag clear. The fields after it are no
-- part of the source's state: the awaiters that have come, those that go on, and those whose
-- `resume_waiter` does nothing, in order.
pub record Event : Type 0 where
  pub signaled : Bool
  pub waiters : List Ptr
  pub setter : Setter
  pub holder : Option Ptr
  pub arrived : List Ptr
  pub resumed : List Ptr
  pub lost : List Ptr

abbrev pub initial : Event
initial = record {
  signaled = false;
  waiters = [];
  setter = not_called;
  holder = none;
  arrived = [];
  resumed = [];
  lost = [];
}

-- `signaled_.exchange(true)` of `set`, which returns if the flag was set
unfoldable pub signal : Event → Event
signal e = if e.signaled then e else record e { signaled = true; setter = taking }

-- `set` takes all waiters under the mutex.
unfoldable pub take_all : Event → Event
take_all e = record e { waiters = []; setter = resuming e.waiters }

-- A round of the loop of `set`, or its end. `resume_waiter` has no effect if the coroutine is null, or
-- if `dispatch_on` finds the inbox of the awaiter's thread full.
unfoldable pub resume_from : Bool → Setter → Event → Event
resume_from resumes (resuming []) e = record e { setter = returned }
resume_from resumes (resuming (a ∷ waiters)) e =
    if resumes
    then record e { setter = resuming waiters; resumed = e.resumed ++ a ∷ [] }
    else record e { setter = resuming waiters; lost = e.lost ++ a ∷ [] }
resume_from resumes not_called e = e
resume_from resumes taking e = e
resume_from resumes returned e = e

unfoldable pub resume_next : Bool → Event → Event
resume_next resumes e = resume_from resumes e.setter e

-- `await_ready`, and the test of `await_suspend` under the mutex: with the flag set the awaiter goes
-- on. Without it `await_ready` leads to `await_suspend`, and that goes on to hold the mutex.
unfoldable pub test : Ptr → Event → Event
test a e =
    if e.signaled
    then record e { arrived = e.arrived ++ a ∷ []; resumed = e.resumed ++ a ∷ [] }
    else record e { arrived = e.arrived ++ a ∷ []; holder = some a }

-- the end of `await_suspend`: the awaiter becomes the first waiter and gives up the mutex
unfoldable pub push_waiter : Ptr → Event → Event
push_waiter a e = record e { waiters = a ∷ e.waiters; holder = none }

pub data Step : Event → Event → Type 0 where
  signals : (e : Event) → Step e (signal e)
  takes : (e : Event) → e.setter ≡ taking → e.holder ≡ none → Step e (take_all e)
  resumes : (b : Bool) (e : Event) → Step e (resume_next b e)
  is_ready : (a : Ptr) (e : Event) → e.signaled ≡ true → Step e (test a e)
  suspends : (a : Ptr) (e : Event) → e.holder ≡ none → Step e (test a e)
  pushes : (a : Ptr) (e : Event) → e.holder ≡ some a → Step e (push_waiter a e)

pub data Steps : Event → Event → Type 0 where
  done : (e : Event) → Steps e e
  then : {e f g : Event} → Steps e f → Step f g → Steps e g
