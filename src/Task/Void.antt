-- ===== src/Task/Void.antt =====
-- include/novaio/task.hpp: the specialisation `Task<void>`, whose promise has no value, against `Task` of
-- the type with one element.
use novaio.Prelude.{
  ◌≡◌, refl, sym, ◌⊎◌, inl, inr, Option, none, some, List, [], ◌∷◌, ◌==◌, if◌then◌else◌,
}
use novaio.Handle.{Handle, null}
use novaio.Task.{Promise}
use novaio.Task

pub record VoidPromise (E : Type 0) : Type 0 where
  pub exception : Option E
  pub continuation : Handle

-- what happens to a coroutine: it is awaited by another, or its body ends
pub data Happens (E : Type 0) : Type 0 where
  awaited : Handle → Handle → Happens E
  returned : Happens E
  threw : E → Happens E

module _ {E : Type 0} where
  unfoldable pub return_void : VoidPromise E → VoidPromise E
  return_void p = p

  unfoldable pub unhandled_exception : E → VoidPromise E → VoidPromise E
  unhandled_exception e p = record p { exception = some e }

  -- `await_suspend` of the awaiter
  unfoldable pub await_suspend : Handle → Handle → VoidPromise E → Handle × VoidPromise E
  await_suspend coro awaiting p = (coro, record p { continuation = awaiting })

  -- `FinalAwaiter::await_suspend`
  unfoldable pub final_suspend : Handle → VoidPromise E → Handle
  final_suspend noop p = if p.continuation == null then noop else p.continuation

  -- `await_resume`, which returns or throws again
  unfoldable pub await_resume : VoidPromise E → E ⊎ Unit {0}
  await_resume p = elim p.exception [ some e ↦ inl e | none ↦ inr tt ]

  abbrev pub run_void : List (Happens E) → VoidPromise E → VoidPromise E
  run_void [] p = p
  run_void (awaited coro awaiting ∷ hs) p = run_void hs (await_suspend coro awaiting p).1
  run_void (returned ∷ hs) p = run_void hs (return_void p)
  run_void (threw e ∷ hs) p = run_void hs (unhandled_exception e p)

  abbrev pub run_unit : List (Happens E) → Promise (Unit {0}) E → Promise (Unit {0}) E
  run_unit [] p = p
  run_unit (awaited coro awaiting ∷ hs) p = run_unit hs (Task.await_suspend coro awaiting p).1
  run_unit (returned ∷ hs) p = run_unit hs (Task.return_value tt p)
  run_unit (threw e ∷ hs) p = run_unit hs (Task.unhandled_exception e p)

  abbrev pub as_unit : VoidPromise E → Promise (Unit {0}) E
  as_unit p = record { value = tt; exception = p.exception; continuation = p.continuation }

  run_void-run_unit :
      (hs : List (Happens E)) (p : VoidPromise E)
      → as_unit (run_void hs p) ≡ run_unit hs (as_unit p)
  unfolding return_void unhandled_exception await_suspend Task.return_value Task.unhandled_exception
      Task.await_suspend
  run_void-run_unit [] p = refl
  run_void-run_unit (awaited coro awaiting ∷ hs) p =
      run_void-run_unit hs (record p { continuation = awaiting })
  run_void-run_unit (returned ∷ hs) p = run_void-run_unit hs p
  run_void-run_unit (threw e ∷ hs) p = run_void-run_unit hs (record p { exception = some e })

  -- After whatever happens to it, a coroutine of `Task<void>` goes on at its end as one of `Task` with a
  -- value of the type with one element does, and gives its awaiter the same result or exception.
  pub void-unit :
      (noop : Handle) (hs : List (Happens E)) (p : VoidPromise E)
      → (final_suspend noop (run_void hs p) ≡ Task.final_suspend noop (run_unit hs (as_unit p)))
        × (await_resume (run_void hs p) ≡ Task.await_resume (run_unit hs (as_unit p)))
  unfolding final_suspend await_resume Task.final_suspend Task.await_resume
  void-unit noop hs p = rw (sym (run_void-run_unit hs p)) (refl, refl)
