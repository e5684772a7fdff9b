-- ===== src/Task/Chain.antt =====
-- include/novaio/task.hpp: coroutines that await one another, from the outermost `co_await` down to a
-- body that awaits no further, and back. Promises are named by the handles of their coroutines.
use novaio.Prelude.{
  ℕ, zero, suc, ◌<◌, ◌≡◌, refl, sym, ap, ◌∙◌, ◌≢◌, ◌⊎◌, inl, inr, true, false, Option, none, some,
  List, [], ◌∷◌, arith, ◌==◌, if◌then◌else◌, ◌>>=◌, ==_self, ==_of_ne, length, has, rev_onto,
  length-rev_onto,
}
use novaio.Handle.{Handle, null}
use novaio.Task.{
  Promise, return_value, unhandled_exception, await_suspend, final_suspend, await_resume,
}
use novaio.Task.Await.{finish}

abbrev next_of : Handle → List Handle → Handle
next_of outer [] = outer
next_of outer (h ∷ hs) = h

abbrev pub Promises : Type 0 → Type 0 → Type 0
Promises T E = Handle → Promise T E

module _ {T E : Type 0} where
  abbrev pub put : Promises T E → Handle → Promise T E → Promises T E
  put m h p k = if k == h then p else m k

  -- Each coroutine awaits the next, the first being awaited by `awaiting`.
  unfoldable pub descend : Handle → List Handle → Promises T E → Promises T E
  descend awaiting [] m = m
  descend awaiting (h ∷ hs) m = descend h hs (put m h (await_suspend h awaiting (m h)).1)

  -- `noop` is `std::noop_coroutine()`; `body` is what a coroutine that is resumed makes of the value or
  -- exception that it awaited.
  module _ (noop : Handle) (body : Handle → E ⊎ T → E ⊎ T) where
    -- The coroutine `h` ends, and the one that goes on ends, until that is `outer`: what `outer` gets,
    -- and the coroutines that have ended, in their order. `none` is too little fuel.
    unfoldable pub ascend :
        ℕ → Handle → Handle → E ⊎ T → Promises T E → Option ((E ⊎ T) × List Handle)
    ascend zero outer h outcome m = none
    ascend (suc fuel) outer h outcome m =
        let p = finish outcome (m h) in
        let next = final_suspend noop p in
        let result = await_resume p in
        let rest = (do
          (got, ended) ← ascend fuel outer next (body next result) (put m h p)
          some (got, h ∷ ended)) in
        if next == outer then some (result, h ∷ []) else rest

    -- `co_await` of the first coroutine of a chain, whose last one ends with `outcome`
    unfoldable pub run_chain :
        Handle → List Handle → E ⊎ T → Promises T E → Option ((E ⊎ T) × List Handle)
    run_chain outer hs outcome m =
        ascend (length hs) outer (next_of outer (rev_onto hs [])) outcome (descend outer hs m)

    -- what the first of the chain ends with: each body but the last makes it of the next one's
    abbrev pub chain_result : List Handle → E ⊎ T → E ⊎ T
    chain_result [] outcome = outcome
    chain_result (h ∷ []) outcome = outcome
    chain_result (h ∷ k ∷ hs) outcome = body h (chain_result (k ∷ hs) outcome)

    abbrev climb : List Handle → E ⊎ T → E ⊎ T
    climb [] r = r
    climb (h ∷ hs) r = climb hs (body h r)

    abbrev climb_from : List Handle → E ⊎ T → E ⊎ T
    climb_from [] r = r
    climb_from (h ∷ hs) r = climb hs r

    climb_from-rev_onto :
        (h : Handle) (hs later : List Handle) (r : E ⊎ T)
        → climb_from (rev_onto (h ∷ hs) later) r ≡ climb later (chain_result (h ∷ hs) r)
    climb_from-rev_onto h [] later r = refl
    climb_from-rev_onto h (k ∷ hs) later r = climb_from-rev_onto k hs (h ∷ later) r

  -- a chain that waits, the innermost coroutine first
  abbrev Waiting : Handle → Promises T E → List Handle → Type 0
  Waiting outer m [] = Unit
  Waiting outer m (h ∷ hs) =
      ((m h).continuation ≡ next_of outer hs)
      × ((m h).exception ≡ none)
      × (has h hs ≡ false)
      × (h ≢ outer)
      × (h ≢ null)
      × Waiting outer m hs

  Waiting-put :
      (outer h : Handle) (p : Promise T E) (m : Promises T E) (hs : List Handle)
      → has h hs ≡ false
      → Waiting outer m hs
      → Waiting outer (put m h p) hs
  Waiting-put outer h p m [] out w = tt
  Waiting-put outer h p m (k ∷ hs) out (c, e, new, ne, some_k, w) =
      let other : (k == h) ≡ false = ground arith in
      (rw other c, rw other e, new, ne, some_k, Waiting-put outer h p m hs (ground arith) w)

  -- coroutines that have just been called: distinct, with no exception yet, and none of them `outer`
  abbrev pub AreNew : Handle → Promises T E → List Handle → List Handle → Type 0
  AreNew outer m [] others = Unit
  AreNew outer m (h ∷ hs) others =
      ((m h).exception ≡ none)
      × (has h others ≡ false)
      × (h ≢ outer)
      × (h ≢ null)
      × AreNew outer m hs (h ∷ others)

  AreNew-put :
      (outer h : Handle) (p : Promise T E) (m : Promises T E) (hs others : List Handle)
      → has h others ≡ true
      → AreNew outer m hs others
      → AreNew outer (put m h p) hs others
  AreNew-put outer h p m [] others was new = tt
  AreNew-put outer h p m (k ∷ hs) others was (e, out, ne, some_k, new) =
      let other : (k == h) ≡ false =
        ==_of_ne k h (λ same. ground (arith, ap (λ x. has x others) same)) in
      (rw other e, out, ne, some_k, AreNew-put outer h p m hs (k ∷ others) (ground arith) new)

  descend-Waiting :
      (outer : Handle) (hs others : List Handle) (m : Promises T E)
      → AreNew outer m hs others
      → Waiting outer m others
      → Waiting outer (descend (next_of outer others) hs m) (rev_onto hs others)
  unfolding descend await_suspend
  descend-Waiting outer [] others m new w = w
  descend-Waiting outer (h ∷ hs) others m (e, out, ne, some_h, new) w =
      let p : Promise T E = record (m h) { continuation = next_of outer others } in
      descend-Waiting outer hs (h ∷ others) (put m h p)
        (AreNew-put outer h p m hs (h ∷ others) (ground (arith, ==_self h)) new)
        (rw (==_self h) (refl, e, out, ne, some_h, Waiting-put outer h p m others out w))

  finish-ends :
      (noop : Handle) (outcome : E ⊎ T) (p : Promise T E)
      → p.continuation ≢ null
      → p.exception ≡ none
      → (final_suspend noop (finish outcome p) ≡ p.continuation)
        × (await_resume (finish outcome p) ≡ outcome)
  unfolding final_suspend await_resume return_value unhandled_exception
  finish-ends noop (inl e) p waits clean = (rw (==_of_ne p.continuation null waits), refl)
  finish-ends noop (inr v) p waits clean = (rw (==_of_ne p.continuation null waits), rw clean)

  module _ (noop : Handle) (body : Handle → E ⊎ T → E ⊎ T) where
    ascend-later :
        (fuel outer h k : ℕ) (outcome : E ⊎ T) (m : Promises T E) (r : (E ⊎ T) × List Handle)
        → final_suspend noop (finish outcome (m h)) ≡ k
        → await_resume (finish outcome (m h)) ≡ outcome
        → k ≢ outer
        → ascend noop body fuel outer k (body k outcome) (put m h (finish outcome (m h))) ≡ some r
        → ascend noop body (suc fuel) outer h outcome m ≡ some (r.0, h ∷ r.1)
    unfolding ascend
    ascend-later fuel outer h k outcome m r goes gets ne later =
        rw (goes, gets, ==_of_ne k outer ne, later) refl

    ascend-climb :
        (outer h : Handle) (hs : List Handle) (outcome : E ⊎ T) (m : Promises T E)
        → outer ≢ null
        → Waiting outer m (h ∷ hs)
        → ascend noop body (suc (length hs)) outer h outcome m
          ≡ some (climb noop body hs outcome, h ∷ hs)
    unfolding ascend
    ascend-climb outer h [] outcome m some_outer (c, e, new, ne, some_h, w) =
        let (goes, gets) = finish-ends noop outcome (m h) (λ z. some_outer (sym c ∙ z)) e in
        rw (goes, gets, c, ==_self outer) refl
    ascend-climb outer h (k ∷ hs) outcome m some_outer (c, e, new, ne, some_h, w) =
        let (c', e', new', ne', some_k, w') = w in
        let (goes, gets) = finish-ends noop outcome (m h) (λ z. some_k (sym c ∙ z)) e in
        ascend-later (suc (length hs)) outer h k outcome m
          (climb noop body hs (body k outcome), k ∷ hs) (goes ∙ c) gets ne'
          (ascend-climb outer k hs (body k outcome) (put m h (finish outcome (m h))) some_outer
            (Waiting-put outer h (finish outcome (m h)) m (k ∷ hs) new w))

    ascend-climb_from :
        (outer : Handle) (hs : List Handle) (outcome : E ⊎ T) (m : Promises T E)
        → 0 < length hs
        → outer ≢ null
        → Waiting outer m hs
        → ascend noop body (length hs) outer (next_of outer hs) outcome m
          ≡ some (climb_from noop body hs outcome, hs)
    ascend-climb_from outer [] outcome m some_task some_outer w = absurd (omega arith)
    ascend-climb_from outer (h ∷ hs) outcome m some_task some_outer w =
        ascend-climb outer h hs outcome m some_outer w

    -- When the first of a chain of coroutines is awaited by `outer`, each of the others by the one before
    -- it, and the last ends with a value or an exception, then all of them end, each once and the last
    -- first, what each ends with goes to the one that awaits it, and `outer` gets what the first makes
    -- of it. The coroutines are distinct and newly called.
    pub run_chain-returns :
        (outer h : Handle) (hs : List Handle) (outcome : E ⊎ T) (m : Promises T E)
        → outer ≢ null
        → AreNew outer m (h ∷ hs) []
        → run_chain noop body outer (h ∷ hs) outcome m
          ≡ some (chain_result noop body (h ∷ hs) outcome, rev_onto (h ∷ hs) [])
    unfolding run_chain
    run_chain-returns outer h hs outcome m some_outer new =
        let same : length (rev_onto (h ∷ hs) []) ≡ length (h ∷ hs) =
          length-rev_onto (h ∷ hs) [] ∙ omega arith in
        ap
          (λ n.
            ascend noop body n outer (next_of outer (rev_onto (h ∷ hs) [])) outcome
              (descend outer (h ∷ hs) m))
          (sym same)
        ∙ ascend-climb_from outer (rev_onto (h ∷ hs) []) outcome (descend outer (h ∷ hs) m)
            (omega (arith, same)) some_outer (descend-Waiting outer (h ∷ hs) [] m new tt)
        ∙ ap (λ r. some (r, rev_onto (h ∷ hs) [])) (climb_from-rev_onto noop body h hs [] outcome)
