-- ===== src/Task/Await.antt =====
-- include/novaio/task.hpp: from `co_await` to its result.
use novaio.Prelude.{◌≡◌, refl, ◌≢◌, ◌⊎◌, inl, inr, none, ==_of_ne}
use novaio.Handle.{Handle, null}
use novaio.Task.{
  Promise, return_value, unhandled_exception, await_suspend, final_suspend, await_resume,
}

module _ {T E : Type 0} where
  -- how a body ends
  abbrev pub finish : E ⊎ T → Promise T E → Promise T E
  finish (inl e) p = unhandled_exception e p
  finish (inr v) p = return_value v p

  -- A coroutine that is awaited goes on at once, whatever ends it is what the awaiting coroutine gets,
  -- and control goes back to that. A coroutine that nobody awaits ends in the coroutine that does nothing.
  pub await-finish :
      (coro awaiting noop : Handle) (outcome : E ⊎ T) (p : Promise T E)
      → awaiting ≢ null
      → p.exception ≡ none
      → p.continuation ≡ null
      → ((await_suspend coro awaiting p).0 ≡ coro)
        × (final_suspend noop (finish outcome (await_suspend coro awaiting p).1) ≡ awaiting)
        × (await_resume (finish outcome (await_suspend coro awaiting p).1) ≡ outcome)
        × (final_suspend noop (finish outcome p) ≡ noop)
  unfolding await_suspend final_suspend await_resume return_value unhandled_exception
  await-finish coro awaiting noop (inl e) p waits clean alone =
      (refl, rw (==_of_ne awaiting null waits), refl, rw alone)
  await-finish coro awaiting noop (inr v) p waits clean alone =
      (refl, rw (==_of_ne awaiting null waits), rw clean, rw alone)
