-- ===== src/Runtime/Lifecycle.antt =====
-- src/runtime.cpp: all cores, from `start` to `stop`.
use novaio.Prelude.{
  ℕ, zero, suc, ◌+◌, ◌≤◌, ◌≡◌, refl, sym, ap, ap₂, ◌∙◌, subst, inl, inr, true, false, none, some,
  List, [], ◌∷◌, ◌++◌, append_assoc, arith, length, All, length-append,
}
use novaio.Queues.Spsc.{make, push}
use novaio.Queues.Spsc.Refine.{Holds}
use novaio.Queues.Capacity.{is_bad_capacity}
use novaio.Runtime.{
  Core, dispatch, dispatch_on, stop_loop, Runtime, new_core, new_cores, new_workers, start, stop,
  not_started,
}
use novaio.Runtime.Dispatch.{dispatch-Dispatched, dispatch_on-append}

module _ {T : Type 0} where
  -- `dispatch_on` for the first `n` of the given cores
  abbrev pub given : ℕ → T → List (Core T) → List (Core T)
  given zero task cores = cores
  given (suc n) task [] = []
  given (suc n) task (c ∷ cores) = (dispatch task c).0 ∷ given n task cores

  pub dispatch_on-beyond :
      (task : T) (cores : List (Core T)) (i : ℕ)
      → length cores ≤ i
      → dispatch_on i task cores ≡ (cores, none)
  unfolding dispatch_on
  dispatch_on-beyond task [] i h = refl
  dispatch_on-beyond task (c ∷ cores) zero h = absurd (omega arith)
  dispatch_on-beyond task (c ∷ cores) (suc i) h =
      rw (dispatch_on-beyond task cores i (omega arith)) refl

  stop_loop-beyond :
      (task : T) (n : ℕ) (cores : List (Core T)) (i : ℕ)
      → length cores ≤ i
      → stop_loop n i task cores ≡ cores
  unfolding stop_loop
  stop_loop-beyond task zero cores i h = refl
  stop_loop-beyond task (suc n) cores i h =
      rw (dispatch_on-beyond task cores i h) (stop_loop-beyond task n cores (i + 1) (omega arith))

  pub stop_loop-given :
      (task : T) (n : ℕ) (front back : List (Core T))
      → stop_loop n (length front) task (front ++ back) ≡ front ++ given n task back
  unfolding stop_loop
  stop_loop-given task zero front back = refl
  stop_loop-given task (suc n) front [] =
      stop_loop-beyond task (suc n) (front ++ []) (length front)
        (omega (arith, length-append front []))
  stop_loop-given task (suc n) front (c ∷ back) =
      let c' : Core T = (dispatch task c).0 in
      rw (dispatch_on-append task front back c) (
        ap₂ (λ i cs. stop_loop n i task cs) (sym (length-append front (c' ∷ [])))
          (sym (append_assoc front (c' ∷ []) back))
        ∙ stop_loop-given task n (front ++ c' ∷ []) back
        ∙ append_assoc front (c' ∷ []) (given n task back))

  -- a core whose inbox holds `xs`, and has room for 65536 tasks
  pub record IsCore (xs : List T) (c : Core T) : Type 0 where
    pub holds : Holds c.inbox xs
    pub room : c.inbox.capacity ≡ 65536

  pub new_core-IsCore : (c : Core T) × (new_core ≡ some c) × IsCore [] c
  unfolding new_core make is_bad_capacity
  new_core-IsCore = (
    _,
    refl,
    record {
      holds = record {
        shape = record {
          bits = 16;
          bits_lt = omega arith;
          capacity_eq = refl;
          mask_eq = refl;
          head_lt = omega arith;
          tail_lt = omega arith;
          fits = omega arith;
        };
        items = refl;
        raw = λ i lo hi. refl;
      };
      room = refl;
    },
  )

  -- cores whose inboxes are empty, but for the task in those of the first `n`
  abbrev pub Gave : ℕ → T → List (Core T) → Type 0
  Gave n task [] = Unit
  Gave zero task (c ∷ cores) = IsCore [] c × Gave zero task cores
  Gave (suc n) task (c ∷ cores) = IsCore (task ∷ []) c × Gave n task cores

  pub new_cores-IsCore :
      (task : T) (n : ℕ)
      → (cores : List (Core T)) × (new_cores n ≡ some cores)
        × (length cores ≡ n)
        × All (IsCore []) cores
  unfolding new_cores
  new_cores-IsCore task zero = ([], refl, refl, tt)
  new_cores-IsCore task (suc n) =
      let (c, made, v) = new_core-IsCore in
      let (cores, rest, count, all) = new_cores-IsCore task n in
      (c ∷ cores, rw (made, rest) refl, rw count refl, (v, all))

  dispatch-capacity :
      (task : T) (c : Core T) → (dispatch task c).0.inbox.capacity ≡ c.inbox.capacity
  unfolding dispatch push
  dispatch-capacity task c = ground arith

  dispatched-IsCore : (task : T) (c : Core T) → IsCore [] c → IsCore (task ∷ []) (dispatch task c).0
  dispatched-IsCore task c v = elim (dispatch-Dispatched task [] c v.holds) [
    | inl (room, holds, ring, same) ↦ record {
      holds = holds;
      room = dispatch-capacity task c ∙ v.room;
    }
    | inr (full, same, ring) ↦ absurd (omega (arith, full, v.room))
  ]

  pub given-Gave :
      (task : T) (n : ℕ) (cores : List (Core T))
      → All (IsCore []) cores
      → Gave n task (given n task cores) × (length (given n task cores) ≡ length cores)
  given-Gave task zero [] all = (tt, refl)
  given-Gave task (suc n) [] all = (tt, refl)
  given-Gave task zero (c ∷ cores) (v, all) = ((v, (given-Gave task zero cores all).0), refl)
  given-Gave task (suc n) (c ∷ cores) (v, all) =
      let (gave, count) = given-Gave task n cores all in
      ((dispatched-IsCore task c v, gave), ap suc count)

  pub stop_loop-Gave :
      (task : T) (n : ℕ) (cores : List (Core T))
      → All (IsCore []) cores
      → Gave n task (stop_loop n 0 task cores) × (length (stop_loop n 0 task cores) ≡ length cores)
  stop_loop-Gave task n cores all =
      subst (λ cs. Gave n task cs × (length cs ≡ length cores))
        (sym (stop_loop-given task n [] cores)) (given-Gave task n cores all)

  -- After `start` and `stop` every core, as yet with nothing else in its inbox, has a task in it that
  -- wakes its thread, which then finds that the runtime no longer runs.
  pub start-stop :
      (idle_task : T) (n : ℕ)
      → (rt : Runtime T) × (start n not_started ≡ some rt)
        × ((stop idle_task rt).is_running ≡ false)
        × (length (stop idle_task rt).schedulers ≡ n)
        × Gave n idle_task (stop idle_task rt).schedulers
  unfolding start stop
  start-stop idle_task n =
      let (cores, made, count, all) = new_cores-IsCore idle_task n in
      let (gave, same) = stop_loop-Gave idle_task n cores all in
      (
        record { is_running = true; schedulers = cores; workers = new_workers n 0 },
        rw made refl,
        refl,
        rw count (same ∙ count),
        rw count gave,
      )
