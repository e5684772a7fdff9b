-- ===== src/Runtime/Dispatch.antt =====
-- src/runtime.cpp: a task on its way to an inbox.
use novaio.Prelude.{ℕ, ◌<◌, ◌≡◌, refl, ap, ◌⊎◌, inl, inr, Option, none, List, [], ◌∷◌, ◌++◌, length}
use novaio.Queues.Spsc.Refine.{Holds, push-Pushes}
use novaio.Runtime.{Core, dispatch, dispatch_on}

module _ {T : Type 0} where
  -- what `dispatch` does to a core whose inbox holds `xs`: with room for the task it is the last of the
  -- inbox and the ring is notified; without, nothing happens
  abbrev pub Dispatched : T → List T → Core T → Core T × Option ℕ → Type 0
  Dispatched task xs c (c', ring) =
      ((length xs < c.inbox.capacity)
        × Holds c'.inbox (xs ++ task ∷ [])
        × (ring ≡ c.ring_fd)
        × (c'.ring_fd ≡ c.ring_fd))
      ⊎ ((length xs ≡ c.inbox.capacity) × (c' ≡ c) × (ring ≡ none))

  pub dispatch-Dispatched :
      (task : T) (xs : List T) (c : Core T)
      → Holds c.inbox xs
      → Dispatched task xs c (dispatch task c)
  unfolding dispatch
  dispatch-Dispatched task xs c h = elim (push-Pushes c.inbox xs task h) [
    | inl (done, room, holds) ↦ inl (room, holds, rw done, refl)
    | inr (full, at_capacity, same) ↦
        inr (at_capacity, ap (λ q. record c { inbox = q }) same, rw full)
  ]

  pub dispatch_on-append :
      (task : T) (front back : List (Core T)) (c : Core T)
      → dispatch_on (length front) task (front ++ c ∷ back)
        ≡ (front ++ (dispatch task c).0 ∷ back, (dispatch task c).1)
  unfolding dispatch_on
  dispatch_on-append task [] back c = refl
  dispatch_on-append task (d ∷ front) back c = rw (dispatch_on-append task front back c) refl

  -- `dispatch_on` touches the core of the given number alone. If its inbox has room, the task is the
  -- last of it and the core's ring is notified, if it has one; if it is full, the task is dropped, and
  -- nothing changes.
  pub dispatch_on-Dispatched :
      (task : T) (xs : List T) (front back : List (Core T)) (c : Core T)
      → Holds c.inbox xs
      → (r : Core T × Option ℕ) × (dispatch_on (length front) task (front ++ c ∷ back)
          ≡ (front ++ r.0 ∷ back, r.1))
        × Dispatched task xs c r
  dispatch_on-Dispatched task xs front back c h =
      (dispatch task c, dispatch_on-append task front back c, dispatch-Dispatched task xs c h)
