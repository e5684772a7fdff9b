-- ===== src/Runtime/Delivery.antt =====
-- src/runtime.cpp and src/scheduler.cpp: a task from `dispatch_on` to `process_inbox` on the thread of
-- the core that it is for.
use novaio.Prelude.{
  ℕ, ◌+◌, ◌%◌, ◌^◌, ◌≤◌, ◌<◌, ◌≡◌, ap, ◌∙◌, inl, inr, some, List, [], ◌∷◌, ◌++◌, arith, length,
  length-append,
}
use novaio.Queues.Spsc.{SpscQueue}
use novaio.Queues.Spsc.Refine.{Holds}
use novaio.Runtime.{Core, dispatch, dispatch_on}
use novaio.Runtime.Dispatch.{dispatch_on-append, dispatch-Dispatched}
use novaio.Scheduler.Inbox.{UniqueTask, process_inbox}
use novaio.Scheduler.Inbox.Drains.{
  AreSet, AreSet-append, calls_of, total, in_order, length-le-total, push-capacity,
  process_inbox-calls,
}

module _ (spawns : UniqueTask → List UniqueTask) (weight : UniqueTask → ℕ)
    (spawned_set : (t : UniqueTask) → AreSet (spawns t))
    (lighter : (t : UniqueTask) → total spawns weight (spawns t) < weight t) where
  dispatch-capacity :
      (task : UniqueTask) (c : Core UniqueTask)
      → (dispatch task c).0.inbox.capacity ≡ c.inbox.capacity
  unfolding dispatch
  dispatch-capacity task c = push-capacity c.inbox task

  -- A task that is dispatched to a running core, whose inbox has room for it and for what its tasks lead
  -- to, changes no other core, and notifies the ring of that core. The `process_inbox` that follows runs
  -- the tasks that the inbox held before, then this one, each once and deleted after it, and leaves the
  -- inbox empty.
  pub dispatch_on-runs :
      (task : UniqueTask) (xs : List UniqueTask) (front back : List (Core UniqueTask))
      (c : Core UniqueTask) (fd fuel processed : ℕ)
      → c.ring_fd ≡ some fd
      → Holds c.inbox xs
      → AreSet (task ∷ xs)
      → total spawns weight (xs ++ task ∷ []) < fuel
      → total spawns weight (xs ++ task ∷ []) ≤ c.inbox.capacity
      → processed < 2 ^ 64
      → (c' : Core UniqueTask) × (dispatch_on (length front) task (front ++ c ∷ back)
          ≡ (front ++ c' ∷ back, some fd))
        × ((inbox : SpscQueue UniqueTask) × (process_inbox spawns fuel c'.inbox processed
              ≡ some (
                inbox,
                calls_of (in_order spawns weight fuel (xs ++ task ∷ [])),
                (processed + length (in_order spawns weight fuel (xs ++ task ∷ []))) % 2 ^ 64,
              ))
            × Holds inbox [])
  dispatch_on-runs task xs front back c fd fuel processed running h (one, set) enough room small =
      elim (dispatch-Dispatched task xs c h) [
        | inr (full, same, silent) ↦ absurd (
            omega (
              arith,
              length-le-total spawns weight spawned_set lighter (xs ++ task ∷ []),
              length-append xs (task ∷ []),
            ))
        | inl (fits, holds, ring, keeps) ↦ (
          (dispatch task c).0,
          dispatch_on-append task front back c
              ∙ ap (λ r. (front ++ (dispatch task c).0 ∷ back, r)) (ring ∙ running),
          process_inbox-calls spawns weight spawned_set lighter fuel (dispatch task c).0.inbox
              processed (xs ++ task ∷ []) enough (omega (arith, dispatch-capacity task c)) small
              holds (AreSet-append xs (task ∷ []) set (one, tt)),
        )
      ]
