-- ===== src/WhenAll/Tests.antt =====
-- include/novaio/when_all.hpp: the theorem at three tasks, which end in another order than they stand.
use novaio.Prelude.{ℕ, ◌≡◌, refl, Bool, true, false, none, some, List, [], ◌∷◌, arith}
use novaio.WhenAll.{nothing, schedule}
use novaio.WhenAll.Start.{valued, when_all, when_all-AllAssigned}
use novaio.WhenAll.Results.{
  Awaiter, run_tasks, ends, awaiting, await_resume, AllAssigned, run_tasks-AllAssigned,
}

-- the values 20, 30 and 10, on threads of which the second has no scheduler
abbrev three : List (ℕ × Bool × ℕ)
three = (1, true, 20) ∷ (2, false, 30) ∷ (0, true, 10) ∷ []

three_end :
    (a : Awaiter ℕ) × (run_tasks (ends three) (awaiting 5 3)
      ≡ some (a, nothing ∷ nothing ∷ schedule 5 ∷ []))
    × AllAssigned three (await_resume a)
three_end = run_tasks-AllAssigned 5 three (omega arith) (omega arith) (refl, (refl, (refl, tt)))

-- Three tasks, of which the second ends at once.
when_all-AllAssigned_example :
    (a : Awaiter ℕ) × (when_all 5 true
        (valued (none ∷ some 20 ∷ none ∷ []))
        (ends ((2, false, 30) ∷ (0, true, 10) ∷ []))
      ≡ some (a, nothing ∷ nothing ∷ schedule 5 ∷ []))
    × AllAssigned three (await_resume a)
when_all-AllAssigned_example =
    when_all-AllAssigned 5 true (none ∷ some 20 ∷ none ∷ []) ((2, false, 30) ∷ (0, true, 10) ∷ [])
      (omega arith) (omega arith) (omega arith) refl (refl, (refl, (refl, tt)))
