-- ===== src/WhenAll/Start.antt =====
-- include/novaio/when_all.hpp: the whole of an awaited `when_all`: `start_tasks`, which starts the helper
-- coroutine of each task in turn, and the tasks that end later. A helper runs up to where its task
-- first suspends, and frees its own frame at its end.
use novaio.Prelude.{
  ℕ, suc, ◌^◌, ◌<◌, ◌≡◌, refl, sym, ap, ◌∙◌, fun_ext, ◌≢◌, inl, inr, Bool, false, Option, none,
  some, List, [], ◌∷◌, ◌++◌, arith, ◌==◌, if◌then◌else◌, ◌>>=◌, Option-cases, length,
}
use novaio.Handle.{Handle, null}
use novaio.WhenAll.{Resume, make, await_ready}
use novaio.WhenAll.Last.{last_resumes}
use novaio.WhenAll.Results.{
  Ended, returned, Awaiter, End, run_task, run_tasks, await_resume, awaiting, ends, scheds,
  AreApart, AllAssigned, run_tasks-AllAssigned,
}

module _ {V : Type 0} where
  -- The tasks from place `i` on, on a thread with or without a scheduler: a task ends at once, or it
  -- suspends, which is `none`.
  unfoldable pub start_tasks :
      Bool → ℕ → List (Option (Ended V)) → Awaiter V → Option (Awaiter V × List Resume)
  start_tasks sched i [] a = some (a, [])
  start_tasks sched i (none ∷ tasks) a = start_tasks sched (suc i) tasks a
  start_tasks sched i (some e ∷ tasks) a = do
    (a, r) ← run_task (record { place = i; sched = sched; ended = e }) a
    (a, rs) ← start_tasks sched (suc i) tasks a
    some (a, r ∷ rs)

  -- `when_all` in the coroutine `h`, with the ends of the tasks that suspend at first: without tasks it
  -- does not suspend
  unfoldable pub when_all :
      Handle → Bool → List (Option (Ended V)) → List (End V) → Option (Awaiter V × List Resume)
  when_all h sched tasks later =
      if await_ready (length tasks)
      then some (record { results = λ i. none; counter = make 0 }, [])
      else (do
        (a, rs) ← start_tasks sched 0 tasks (awaiting h (length tasks))
        (a, rs') ← run_tasks later a
        some (a, rs ++ rs'))

  -- tasks that end with a value at once, or suspend
  abbrev pub valued : List (Option V) → List (Option (Ended V))
  valued [] = []
  valued (none ∷ vs) = none ∷ valued vs
  valued (some v ∷ vs) = some (returned v) ∷ valued vs

  -- the first of these, with their places
  abbrev pub at_once : Bool → ℕ → List (Option V) → List (ℕ × Bool × V)
  at_once sched i [] = []
  at_once sched i (none ∷ vs) = at_once sched (suc i) vs
  at_once sched i (some v ∷ vs) = (i, sched, v) ∷ at_once sched (suc i) vs

  start_tasks-run_tasks :
      (sched : Bool) (i : ℕ) (vs : List (Option V)) (a : Awaiter V)
      → start_tasks sched i (valued vs) a ≡ run_tasks (ends (at_once sched i vs)) a
  unfolding start_tasks run_tasks
  start_tasks-run_tasks sched i [] a = refl
  start_tasks-run_tasks sched i (none ∷ vs) a = start_tasks-run_tasks sched (suc i) vs a
  start_tasks-run_tasks sched i (some v ∷ vs) a =
      ap (λ f. run_task (record { place = i; sched = sched; ended = returned v }) a >>= f)
        (fun_ext λ (b, r).
          ap (λ m. m >>= λ (b, rs). some (b, r ∷ rs)) (start_tasks-run_tasks sched (suc i) vs b))

  run_tasks-append :
      (xs ys : List (End V)) (a : Awaiter V)
      → run_tasks (xs ++ ys) a
        ≡ (run_tasks xs a >>= λ (a, rs). run_tasks ys a >>= λ (a, rs'). some (a, rs ++ rs'))
  unfolding run_tasks
  run_tasks-append [] ys a = elim (Option-cases (run_tasks ys a)) [
    | inl e ↦ rw e refl
    | inr (r, e) ↦ rw e refl
  ]
  run_tasks-append (x ∷ xs) ys a = elim (Option-cases (run_task x a)) [
    | inl e ↦ rw e refl
    | inr ((b, r), e) ↦
        rw (e, run_tasks-append xs ys b)
          (elim (Option-cases (run_tasks xs b)) [
            | inl f ↦ rw f refl
            | inr ((c, rs), f) ↦ rw f (elim (Option-cases (run_tasks ys c)) [
              | inl g ↦ rw g refl
              | inr (s, g) ↦ rw g refl
            ])
          ])
  ]

  ends-append : (xs ys : List (ℕ × Bool × V)) → ends (xs ++ ys) ≡ ends xs ++ ends ys
  ends-append [] ys = refl
  ends-append ((i, sched, v) ∷ xs) ys =
      ap (λ es. record { place = i; sched = sched; ended = returned v } ∷ es) (ends-append xs ys)

  length-valued : (vs : List (Option V)) → length (valued vs) ≡ length vs
  length-valued [] = refl
  length-valued (none ∷ vs) = ap suc (length-valued vs)
  length-valued (some v ∷ vs) = ap suc (length-valued vs)

  -- Such tasks are those of `run_tasks`, the first to end being those that end at once.
  when_all-run_tasks :
      (h : Handle) (sched : Bool) (vs : List (Option V)) (later : List (ℕ × Bool × V))
      → 0 < length vs
      → length (at_once sched 0 vs ++ later) ≡ length vs
      → when_all h sched (valued vs) (ends later)
        ≡ run_tasks
            (ends (at_once sched 0 vs ++ later))
            (awaiting h (length (at_once sched 0 vs ++ later)))
  unfolding when_all await_ready
  when_all-run_tasks h sched vs later some_task complete =
      let now : List (ℕ × Bool × V) = at_once sched 0 vs in
      let n : length (valued vs) ≡ length (now ++ later) = length-valued vs ∙ sym complete in
      let busy : (length (now ++ later) == 0) ≡ false = ground (arith, complete) in
      rw (n, busy, start_tasks-run_tasks sched 0 vs (awaiting h (length (now ++ later))))
        (sym (run_tasks-append (ends now) (ends later) (awaiting h (length (now ++ later))))
          ∙ ap (λ xs. run_tasks xs (awaiting h (length (now ++ later))))
              (sym (ends-append now later)))

  -- In a `when_all` of some tasks, each of which ends with a value, some of them at once and the others
  -- later in any order, only the end of the last resumes the awaiting coroutine, which then finds the
  -- value of every task in its place.
  pub when_all-AllAssigned :
      (h : Handle) (sched : Bool) (vs : List (Option V)) (later : List (ℕ × Bool × V))
      → h ≢ null
      → 0 < length vs
      → length vs < 2 ^ 64
      → length (at_once sched 0 vs ++ later) ≡ length vs
      → AreApart (at_once sched 0 vs ++ later)
      → (a : Awaiter V) × (when_all h sched (valued vs) (ends later)
          ≡ some (a, last_resumes (scheds (at_once sched 0 vs ++ later)) h))
        × AllAssigned (at_once sched 0 vs ++ later) (await_resume a)
  when_all-AllAssigned h sched vs later ne some_task few complete apart =
      let (a, runs, assigned) =
        run_tasks-AllAssigned h (at_once sched 0 vs ++ later) ne (omega (arith, complete)) apart in
      (a, when_all-run_tasks h sched vs later some_task complete ∙ runs, assigned)

  -- A `when_all` without tasks resumes nothing: its coroutine goes on at once.
  when_all-empty :
      (h : Handle) (sched : Bool)
      → when_all h sched [] [] ≡ some (record { results = λ i. none; counter = make 0 }, [])
  unfolding when_all await_ready
  when_all-empty h sched = refl
