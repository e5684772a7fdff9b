-- ===== src/Scheduler/Run/Wakes.antt =====
-- src/scheduler.cpp: how a turn of `run` wakes sleepers on a thread that has nothing else to run.
use novaio.Prelude.{
  ℕ, zero, suc, ◌+◌, ◌-◌, ◌^◌, ◌≤◌, ◌<◌, min, ◌≡◌, refl, sym, ap, ◌∙◌, subst, ◌≢◌, inl, inr, Bool,
  true, Option, some, List, [], ◌∷◌, map, arith, ltb, if◌then◌else◌, ==_self, ==_of_ne, Bool-cases,
  length, take, drop, length-map,
}
use novaio.Handle.{Handle, null}
use novaio.TimeWheel.Cells.{Ptr}
use novaio.TimeWheel.{TimeWheel}
use novaio.TimeWheel.Linked.{has, length-le}
use novaio.TimeWheel.Lists.{Lists}
use novaio.TimeWheel.Exact.{IsWheel, Fires}
use novaio.TimeWheel.Timing.{In}
use novaio.Scheduler.{run_batch, Scheduler, try_dequeue_batch, batch_pipeline_depth, catch_up}
use novaio.Scheduler.Batch.{NonNull, IsReady, pending, try_dequeue_batch_refines}
use novaio.Scheduler.CatchUp.{catch_up_from-Fires}
use novaio.Scheduler.Run.{
  Thread, Program, schedule_all, let_wheel_catch_up, process_io_events, use_batch, turn,
}
use novaio.Scheduler.Run.Idle.{schedule_all-idle, split_at}

module _ {ℓ} {A : Type ℓ} (p : Program A) (fuel : ℕ) (pos : 0 < fuel) (expires : Ptr → ℕ)
    (handles : Ptr → Handle) where
  -- the thread after the coroutines of a list have run, one after the other, each of which counts as a
  -- task unless it is done
  abbrev pub resumed_all : List Handle → Thread A → Thread A
  resumed_all [] s = s
  resumed_all (h ∷ hs) s =
      resumed_all hs (if p.done h s then s else p.record_task_executed (p.resume h s))

  -- what follows: the completions are looked at, or waited for until `later` where none has run
  abbrev pub outcome : ℕ → List Handle → Thread A → Thread A
  outcome later [] s = process_io_events p later (p.submit s)
  outcome later (h ∷ hs) s = p.poll (resumed_all (h ∷ hs) s)

  run_batch-resumed_all :
      (hs : List Handle) (s : Thread A)
      → NonNull hs
      → run_batch p.done p.resume p.record_task_executed hs s ≡ resumed_all hs s
  unfolding run_batch
  run_batch-resumed_all [] s all = refl
  run_batch-resumed_all (h ∷ hs) s (ne, all) = elim (Bool-cases (p.done h s)) [
    | inl e ↦ rw (==_of_ne h null ne, e) (run_batch-resumed_all hs s all)
    | inr e ↦ rw (==_of_ne h null ne, e) (run_batch-resumed_all hs _ all)
  ]

  use_batch-outcome :
      (later : ℕ) (hs : List Handle) (s : Thread A)
      → NonNull hs
      → use_batch p later hs s ≡ outcome later hs s
  unfolding use_batch
  use_batch-outcome later [] s all = refl
  use_batch-outcome later (h ∷ hs) s all = ap p.poll (run_batch-resumed_all (h ∷ hs) s all)

  take-NonNull : (n : ℕ) (hs : List Handle) → NonNull hs → NonNull (take n hs)
  take-NonNull zero hs all = tt
  take-NonNull (suc n) [] all = tt
  take-NonNull (suc n) (h ∷ hs) (ne, all) = (ne, take-NonNull n hs all)

  all_NonNull :
      (xs : List Ptr) → ((x : Ptr) → has x xs ≡ true → handles x ≢ null) → NonNull (map handles xs)
  all_NonNull [] nonnull = tt
  all_NonNull (x ∷ xs) nonnull =
      (nonnull x (ground (arith, ==_self x)), all_NonNull xs λ y h. nonnull y (ground (arith, h)))

  fired-le :
      {m : Option (TimeWheel × List Handle)} {sched : Bool} {now target : ℕ} {w : TimeWheel}
      {L : Lists}
      → IsWheel fuel expires handles now w L
      → (f : Fires fuel pos expires handles m sched now target L) → length f.fired ≤ fuel
  fired-le v f = length-le fuel f.fired f.once λ a le. elim (Bool-cases (has a f.fired)) [
    | inl h ↦
        let ((c, here), early) = (f.fired_iff a).0 h in
        absurd (ground (arith, here, v.holds.below a le c))
    | inr out ↦ out
  ]

  -- What a turn at `now` does on a thread with nothing to run: it resumes the coroutines of the timers
  -- that fire, a batch of them, and leaves the others pending.
  pub record Wakes (now later : ℕ) (s : Thread A) (tick0 : ℕ) (L : Lists) : Type ℓ where
    pub fires :
        Fires fuel pos expires handles
          (catch_up (now - s.last_tick_time) fuel (s.last_tick_time + 1) s.wheel)
          true
          tick0
          now
          L
    pub ready : Scheduler
    pub resumes :
        turn p fuel now later s
        ≡ some (
            outcome later
              (take batch_pipeline_depth (map handles fires.fired))
              (record (p.process_inbox (record s {
                wheel = fires.after;
                ready = schedule_all (map handles fires.fired) s.ready;
                last_tick_time = now;
              })) { ready = ready }))
    pub left : pending ready ≡ drop batch_pipeline_depth (map handles fires.fired)

  batch_of :
      (r : Scheduler) (hs : List Handle)
      → IsReady r
      → pending r ≡ hs
      → ((try_dequeue_batch batch_pipeline_depth r).0 ≡ take batch_pipeline_depth hs)
        × (pending (try_dequeue_batch batch_pipeline_depth r).1 ≡ drop batch_pipeline_depth hs)
  batch_of r hs v e =
      let (parts, count, next, v') =
        try_dequeue_batch_refines {s = r} batch_pipeline_depth v (omega arith) in
      split_at batch_pipeline_depth _ _ hs (parts ∙ e)
        (count ∙ ap (λ xs. min batch_pipeline_depth (length xs)) e)

  turn_of :
      (now later : ℕ) (s : Thread A) (w : TimeWheel) (hs batch : List Handle)
      → s.last_tick_time < now
      → catch_up (now - s.last_tick_time) fuel (s.last_tick_time + 1) s.wheel ≡ some (w, hs)
      → let s2 =
          p.process_inbox
            (record s { wheel = w; ready = schedule_all hs s.ready; last_tick_time = now }) in
        let taken = try_dequeue_batch batch_pipeline_depth s2.ready in
        taken.0 ≡ batch
        → NonNull batch
        → turn p fuel now later s ≡ some (outcome later batch (record s2 { ready = taken.1 }))
  unfolding turn let_wheel_catch_up
  turn_of now later s w hs batch lt e b all =
      let later_tick : ltb s.last_tick_time now ≡ true = ground arith in
      rw (later_tick, e, b) (ap (λ s'. some s') (use_batch-outcome later batch _ all))

  -- If a thread has nothing to run, its clock has moved on, the tasks of its inbox schedule nothing, the
  -- timers in the wheel have coroutines, and the queue has room for as many handles as the fuel, which
  -- bounds the addresses of the nodes, then a turn takes the coroutines of exactly the timers that expire
  -- before `now`, in the order of their expiry. It resumes the first 16, one after the other, save those
  -- that are done, and counts each as a task, while the others stay pending. Then it calls `poll`, or,
  -- if no timer has fired, submits and waits.
  pub turn-Wakes :
      (now later tick0 : ℕ) (s : Thread A) (L : Lists)
      → ((s' : Thread A) → (p.process_inbox s').ready ≡ s'.ready)
      → ((x : Ptr) → In x L → handles x ≢ null)
      → IsWheel fuel expires handles tick0 s.wheel L
      → IsReady s.ready
      → pending s.ready ≡ []
      → fuel ≤ s.ready.local_queue.capacity
      → s.last_tick_time < now
      → tick0 ≤ s.last_tick_time + 1
      → now < 2 ^ 64
      → Wakes now later s tick0 L
  turn-Wakes now later tick0 s L quiet nonnull v ready idle room lt le small = wakes (
      catch_up_from-Fires fuel pos expires handles s.last_tick_time now tick0 s.wheel L lt le small
        v)
    where
      wakes :
          Fires fuel pos expires handles
            (catch_up (now - s.last_tick_time) fuel (s.last_tick_time + 1) s.wheel)
            true
            tick0
            now
            L
          → Wakes now later s tick0 L
      wakes f =
          let hs : List Handle = map handles f.fired in
          let all =
            all_NonNull f.fired λ x h. let (here, early) = (f.fired_iff x).0 h in nonnull x here in
          let (ready1, new) =
            schedule_all-idle hs s.ready ready idle all
              (omega (arith, room, length-map f.fired handles, fired-le v f)) in
          let same =
            quiet (record s {
              wheel = f.after;
              ready = schedule_all hs s.ready;
              last_tick_time = now;
            }) in
          let (first, rest) =
            batch_of _ hs (subst IsReady (sym same) ready1) (ap pending same ∙ new) in
          record {
            fires = f;
            ready = _;
            resumes =
                turn_of now later s f.after hs _ lt f.runs first
                  (take-NonNull batch_pipeline_depth hs all);
            left = rest;
          }
