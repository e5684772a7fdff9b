-- ===== src/Task/Tests.antt =====
-- include/novaio/task.hpp: a task that returns 42 to coroutine 5, and a chain of three tasks, the last of
-- which throws.
use novaio.Prelude.{
  ℕ, ◌+◌, ◌*◌, ◌≡◌, refl, ◌⊎◌, inl, inr, none, some, [], ◌∷◌, arith, ◌==◌, if◌then◌else◌,
}
use novaio.Task.{Promise, await_suspend, final_suspend, await_resume}
use novaio.Task.Await.{finish, await-finish}
use novaio.Task.Chain.{Promises, run_chain, run_chain-returns}

abbrev started : Promise ℕ ℕ
started = record { value = 0; exception = none; continuation = 0 }

answers_42 :
    ((await_suspend 8 5 started).0 ≡ 8)
    × (final_suspend 1 (finish (inr 42) (await_suspend 8 5 started).1) ≡ 5)
    × (await_resume (finish (inr 42) (await_suspend 8 5 started).1) ≡ inr 42)
    × (final_suspend 1 (finish (inr 42) started) ≡ 1)
answers_42 = await-finish 8 5 1 (inr 42) started (omega arith) refl refl

abbrev called : Promises ℕ ℕ
called h = started

-- Coroutine 16 catches the exception 3 of coroutine 24 and returns 30, to which coroutine 8 adds 1.
abbrev bodies : ℕ → ℕ ⊎ ℕ → ℕ ⊎ ℕ
bodies h (inl e) = if h == 16 then inr (e * 10) else inl e
bodies h (inr v) = inr (v + 1)

run_chain-returns_example :
    run_chain 1 bodies 5 (8 ∷ 16 ∷ 24 ∷ []) (inl 3) called ≡ some (inr 31, 24 ∷ 16 ∷ 8 ∷ [])
run_chain-returns_example =
    run_chain-returns 1 bodies 5 8 (16 ∷ 24 ∷ []) (inl 3) called (omega arith) (
      refl,
      refl,
      omega arith,
      omega arith,
      (refl, refl, omega arith, omega arith, (refl, refl, omega arith, omega arith, tt)),
    )
