-- ===== src/Task.antt =====
-- include/novaio/task.hpp: a coroutine that is awaited, by the state of its promise. What the compiler
-- makes of a coroutine's body is not modelled; a body ends with a value or an exception.
pub mod Await
pub mod Chain
pub mod Void
pub mod Frames
pub mod Ownership
mod Tests
use novaio.Prelude.{◌⊎◌, inl, inr, Option, none, some, ◌==◌, if◌then◌else◌}
use novaio.Handle.{Handle, null}

-- `value` and `exception` are as the promise is made with them, or what the body ended with;
-- `Task<void>`, whose promise is code of its own, is that of Task/Void.
pub record Promise (T E : Type 0) : Type 0 where
  pub value : T
  pub exception : Option E
  pub continuation : Handle

module _ {T E : Type 0} where
  -- how the body of a coroutine ends: by `return_value`, or by `unhandled_exception`
  unfoldable pub return_value : T → Promise T E → Promise T E
  return_value v p = record p { value = v }

  unfoldable pub unhandled_exception : E → Promise T E → Promise T E
  unhandled_exception e p = record p { exception = some e }

  -- `await_suspend` of the awaiter: the coroutine `coro` goes on next, and knows who waits for it.
  unfoldable pub await_suspend : Handle → Handle → Promise T E → Handle × Promise T E
  await_suspend coro awaiting p = (coro, record p { continuation = awaiting })

  -- `FinalAwaiter::await_suspend`: the coroutine that goes on next, `noop` if nobody waits
  unfoldable pub final_suspend : Handle → Promise T E → Handle
  final_suspend noop p = if p.continuation == null then noop else p.continuation

  -- `await_resume`: the exception is thrown again, or the value moved out.
  unfoldable pub await_resume : Promise T E → E ⊎ T
  await_resume p = elim p.exception [ some e ↦ inl e | none ↦ inr p.value ]
