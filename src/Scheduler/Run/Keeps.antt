-- ===== src/Scheduler/Run/Keeps.antt =====
-- src/scheduler.cpp: the time wheel through the turns of `run`.
use novaio.Prelude.{
  ℕ, ◌+◌, ◌^◌, ◌≤◌, ◌<◌, ◌≡◌, refl, inl, inr, not, ◌&&◌, ◌||◌, some, List, [], ◌∷◌, arith, ltb,
  ◌==◌, Bool-cases, All,
}
use novaio.Handle.{Handle, null}
use novaio.TimeWheel.Cells.{Ptr}
use novaio.TimeWheel.Lists.{Lists}
use novaio.TimeWheel.{next_timeout}
use novaio.TimeWheel.Exact.{IsWheel}
use novaio.Scheduler.{Scheduler, try_dequeue_batch, batch_pipeline_depth, run_batch, Wait, wait_for}
use novaio.Scheduler.CatchUp.{catch_up_from-Fires}
use novaio.Scheduler.Run.{
  Thread, Program, let_wheel_catch_up, process_io_events, use_batch, turn, run_turns,
}

module _ {ℓ} {A : Type ℓ} (fuel : ℕ) where
  -- the wheel holds some timers, and has not passed the next tick of the loop
  pub record IsInTime (s : Thread A) : Type 0 where
    pub expires : Ptr → ℕ
    pub handles : Ptr → Handle
    pub at : ℕ
    pub timers : Lists
    pub wheel : IsWheel fuel expires handles at s.wheel timers
    pub behind : at ≤ s.last_tick_time + 1

  set_ready-IsInTime :
      (r : Scheduler) (s : Thread A) → IsInTime s → IsInTime (record s { ready = r })
  set_ready-IsInTime r s v = record {
    expires = v.expires;
    handles = v.handles;
    at = v.at;
    timers = v.timers;
    wheel = v.wheel;
    behind = v.behind;
  }

  -- What the loop calls may touch the wheel, and keeps it well formed.
  module _ (p : Program A) (pos : 0 < fuel)
      (inbox : (s : Thread A) → IsInTime s → IsInTime (p.process_inbox s))
      (resumed : (h : Handle) (s : Thread A) → IsInTime s → IsInTime (p.resume h s))
      (recorded : (s : Thread A) → IsInTime s → IsInTime (p.record_task_executed s))
      (submitted : (s : Thread A) → IsInTime s → IsInTime (p.submit s))
      (polled : (s : Thread A) → IsInTime s → IsInTime (p.poll s))
      (waited : (w : Wait) (s : Thread A) → IsInTime s → IsInTime (p.wait w s).1) where
    let_wheel_catch_up-IsInTime :
        (now : ℕ) (s : Thread A)
        → now < 2 ^ 64
        → IsInTime s
        → (s' : Thread A) × (let_wheel_catch_up p fuel now s ≡ some s') × IsInTime s'
    unfolding let_wheel_catch_up
    let_wheel_catch_up-IsInTime now s small v = elim (Bool-cases (ltb s.last_tick_time now)) [
      | inr late ↦ rw late (s, refl, v)
      | inl more ↦
          let f =
            catch_up_from-Fires fuel pos v.expires v.handles s.last_tick_time now v.at s.wheel
              v.timers (ground arith) v.behind small v.wheel in
          rw (more, f.runs)
            (
              _,
              refl,
              record {
                expires = v.expires;
                handles = v.handles;
                at = now;
                timers = f.kept;
                wheel = f.wheel;
                behind = omega arith;
              },
            )
    ]

    run_batch-IsInTime :
        (hs : List Handle) (s : Thread A)
        → IsInTime s
        → IsInTime (run_batch p.done p.resume p.record_task_executed hs s)
    unfolding run_batch
    run_batch-IsInTime [] s v = v
    run_batch-IsInTime (h ∷ hs) s v = elim (Bool-cases (not (h == null) && not (p.done h s))) [
      | inl runs ↦ rw runs (run_batch-IsInTime hs _ (recorded _ (resumed h s v)))
      | inr skips ↦ rw skips (run_batch-IsInTime hs s v)
    ]

    process_io_events-IsInTime :
        (later : ℕ) (s : Thread A) → IsInTime s → IsInTime (process_io_events p later s)
    unfolding process_io_events
    process_io_events-IsInTime later s v =
        let w : Wait = wait_for (next_timeout later s.wheel) in
        let ret : ℕ = (p.wait w s).0 in
        elim (Bool-cases ((ret == 0) || (ret == p.etime))) [
          | inl some_event ↦ rw some_event (polled _ (waited w s v))
          | inr failed ↦ rw failed (waited w s v)
        ]

    use_batch-IsInTime :
        (later : ℕ) (batch : List Handle) (s : Thread A)
        → IsInTime s
        → IsInTime (use_batch p later batch s)
    unfolding use_batch
    use_batch-IsInTime later [] s v = process_io_events-IsInTime later (p.submit s) (submitted s v)
    use_batch-IsInTime later (h ∷ batch) s v = polled _ (run_batch-IsInTime (h ∷ batch) s v)

    turn-IsInTime :
        (now later : ℕ) (s : Thread A)
        → now < 2 ^ 64
        → IsInTime s
        → (s' : Thread A) × (turn p fuel now later s ≡ some s') × IsInTime s'
    unfolding turn
    turn-IsInTime now later s small v =
        let (s1, caught_up, v1) = let_wheel_catch_up-IsInTime now s small v in
        let s2 : Thread A = p.process_inbox s1 in
        let taken = try_dequeue_batch batch_pipeline_depth s2.ready in
        (
          use_batch p later taken.0 (record s2 { ready = taken.1 }),
          rw caught_up refl,
          use_batch-IsInTime later taken.0 (record s2 { ready = taken.1 })
              (set_ready-IsInTime taken.1 s2 (inbox s1 v1)),
        )

    -- The loop of `run` goes on for as many turns as the runtime runs, and does not get stuck in a
    -- tick. After each, the wheel is well formed and has not passed the next tick, if the tasks of the
    -- inbox, the coroutines, the engine and the kernel keep it so. The fuel is any bound on the addresses
    -- of the nodes.
    pub run_turns-IsInTime :
        (times : List (ℕ × ℕ)) (s : Thread A)
        → All (λ t. t.0 < 2 ^ 64) times
        → IsInTime s
        → (s' : Thread A) × (run_turns p fuel times s ≡ some s') × IsInTime s'
    unfolding run_turns
    run_turns-IsInTime [] s small v = (s, refl, v)
    run_turns-IsInTime ((now, later) ∷ times) s (now_small, small) v =
        let (s1, first, v1) = turn-IsInTime now later s now_small v in
        let (s', rest, v') = run_turns-IsInTime times s1 small v1 in (s', rw (first, rest) refl, v')
