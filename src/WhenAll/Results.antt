-- ===== src/WhenAll/Results.antt =====
-- include/novaio/when_all.hpp: `run_task` and the results of `when_all`. A task is named by its place in
-- the tuple; a result is `none` until it is assigned.
use novaio.Prelude.{
  ℕ, suc, ◌^◌, ◌<◌, ◌≡◌, refl, ap, ◌∙◌, subst, ◌≢◌, inl, inr, Bool, false, ◌||◌, Option, none, some,
  List, [], ◌∷◌, ◌++◌, arith, ◌==◌, if◌then◌else◌, ◌>>=◌, ==_self, Option-cases, length,
}
use novaio.Handle.{Handle, null}
use novaio.WhenAll.{WhenAllCounter, Resume, make, await_suspend, notify, notify_each}
use novaio.WhenAll.Last.{last_resumes, notify_each-resumes}

-- how a task ends: with a value, which is 0 for a `Task<void>`, or with an exception
pub data Ended (V : Type 0) : Type 0 where
  returned : V → Ended V
  threw : Ended V

pub record Awaiter (V : Type 0) : Type 0 where
  pub results : ℕ → Option V
  pub counter : WhenAllCounter

-- the end of a task: its place, whether its thread has a scheduler, and how it ends
pub record End (V : Type 0) : Type 0 where
  pub place : ℕ
  pub sched : Bool
  pub ended : Ended V

module _ {V : Type 0} where
  -- `run_task` from the end of its task on; `none` is `std::terminate`, which an exception leads to
  unfoldable pub run_task : End V → Awaiter V → Option (Awaiter V × Resume)
  run_task e a = elim e.ended [
    | threw ↦ none
    | returned v ↦
        let (counter, r) = notify e.sched a.counter in
        some (
          record { results = λ i. if i == e.place then some v else a.results i; counter = counter },
          r,
        )
  ]

  -- tasks that end one after the other
  unfoldable pub run_tasks : List (End V) → Awaiter V → Option (Awaiter V × List Resume)
  run_tasks [] a = some (a, [])
  run_tasks (e ∷ es) a = do (a, r) ← run_task e a; (a, rs) ← run_tasks es a; some (a, r ∷ rs)

  -- `await_resume`, which moves the results out
  unfoldable pub await_resume : Awaiter V → ℕ → Option V
  await_resume a = a.results

  -- the awaiter of `n` tasks once `h` is suspended
  abbrev pub awaiting : Handle → ℕ → Awaiter V
  awaiting h n = record { results = λ i. none; counter = await_suspend h (make n) }

  -- tasks that return values, by their places
  abbrev pub ends : List (ℕ × Bool × V) → List (End V)
  ends [] = []
  ends ((i, sched, v) ∷ es) = record { place = i; sched = sched; ended = returned v } ∷ ends es

  abbrev pub scheds : List (ℕ × Bool × V) → List Bool
  scheds [] = []
  scheds ((i, sched, v) ∷ es) = sched ∷ scheds es

  abbrev pub is_at : ℕ → List (ℕ × Bool × V) → Bool
  is_at i [] = false
  is_at i ((j, sched, v) ∷ es) = (i == j) || is_at i es

  abbrev pub AreApart : List (ℕ × Bool × V) → Type 0
  AreApart [] = Unit
  AreApart ((i, sched, v) ∷ es) = (is_at i es ≡ false) × AreApart es

  abbrev pub AllAssigned : List (ℕ × Bool × V) → (ℕ → Option V) → Type 0
  AllAssigned [] results = Unit
  AllAssigned ((i, sched, v) ∷ es) results = (results i ≡ some v) × AllAssigned es results

  run_tasks-runs :
      (es : List (ℕ × Bool × V)) (a : Awaiter V)
      → AreApart es
      → (a' : Awaiter V) × (run_tasks (ends es) a
          ≡ some (a', (notify_each (scheds es) a.counter).1))
        × AllAssigned es a'.results
        × ((i : ℕ) → is_at i es ≡ false → a'.results i ≡ a.results i)
  unfolding run_tasks run_task notify_each
  run_tasks-runs [] a apart = (a, refl, tt, λ i out. refl)
  run_tasks-runs ((i, sched, v) ∷ es) a (new, apart) =
      let a1 : Awaiter V = record {
        results = λ j. if j == i then some v else a.results j;
        counter = (notify sched a.counter).0;
      } in
      let (a', runs, assigned, others) = run_tasks-runs es a1 apart in
      (
        a',
        rw runs refl,
        (others i new ∙ rw (==_self i) refl, assigned),
        λ j out. others j (ground arith) ∙ (let ne : (j == i) ≡ false = ground arith in rw ne refl),
      )

  length-scheds : (es : List (ℕ × Bool × V)) → length (scheds es) ≡ length es
  length-scheds [] = refl
  length-scheds ((i, sched, v) ∷ es) = ap suc (length-scheds es)

  -- If every task of a `when_all` returns a value, then, in whatever order they end, only the end of the
  -- last resumes the awaiting coroutine, which then finds the value of every task in its place.
  pub run_tasks-AllAssigned :
      (h : Handle) (es : List (ℕ × Bool × V))
      → h ≢ null
      → length es < 2 ^ 64
      → AreApart es
      → (a : Awaiter V) × (run_tasks (ends es) (awaiting h (length es))
          ≡ some (a, last_resumes (scheds es) h))
        × AllAssigned es (await_resume a)
  unfolding await_resume
  run_tasks-AllAssigned h es ne few apart =
      let n = length-scheds es in
      let (a, runs, assigned, others) = run_tasks-runs es (awaiting h (length es)) apart in
      let woken : (notify_each (scheds es) (await_suspend h (make (length es)))).1
          ≡ last_resumes (scheds es) h =
        subst
          (λ k. (notify_each (scheds es) (await_suspend h (make k))).1 ≡ last_resumes (scheds es) h)
          n (notify_each-resumes (scheds es) h ne (omega (arith, n, few))) in
      (a, runs ∙ ap (λ rs. some (a, rs)) woken, assigned)

  -- A task that ends with an exception ends the program, however the tasks before it ended.
  run_tasks-threw :
      (es later : List (End V)) (place : ℕ) (sched : Bool) (a : Awaiter V)
      → run_tasks (es ++ record { place = place; sched = sched; ended = threw } ∷ later) a ≡ none
  unfolding run_tasks run_task
  run_tasks-threw [] later place sched a = refl
  run_tasks-threw (e ∷ es) later place sched a = elim (Option-cases (run_task e a)) [
    | inl failed ↦ rw failed refl
    | inr (r, runs) ↦ rw (runs, run_tasks-threw es later place sched r.0) refl
  ]
