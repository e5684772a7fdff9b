-- ===== src/Scheduler/Run/Idle.antt =====
-- src/scheduler.cpp: the coroutines that are scheduled on a thread that has nothing to run.
use novaio.Prelude.{
  ℕ, zero, suc, ◌+◌, ◌≤◌, ◌<◌, min, ◌≡◌, refl, sym, ap, ap₂, ◌∙◌, ◌≢◌, inl, inr, Bool, true, List,
  [], ◌∷◌, ◌++◌, append-nil, append_assoc, arith, ◌==◌, if◌then◌else◌, ==_of_ne, Bool-cases, length,
  take, drop, cons_head, cons_tail,
}
use novaio.Handle.{Handle, null}
use novaio.Queues.Local.{LocalQueue, push}
use novaio.Queues.Local.Refine.{size, contents, size-push}
use novaio.Queues.Window.{length-window}
use novaio.Scheduler.{Scheduler, schedule}
use novaio.Scheduler.Batch.{NonNull, IsReady, pending, schedule_refines}
use novaio.Scheduler.Run.{schedule_all}

push-capacity : (q : LocalQueue) (h : Handle) → (push q h).capacity ≡ q.capacity
unfolding push
push-capacity q h = refl

schedule_queued :
    (h : Handle) (s : Scheduler)
    → IsReady s
    → s.runnext ≢ null
    → size s.local_queue < s.local_queue.capacity
    → ((schedule h s).runnext ≡ s.runnext)
      × (size (schedule h s).local_queue ≡ suc (size s.local_queue))
      × ((schedule h s).local_queue.capacity ≡ s.local_queue.capacity)
unfolding schedule
schedule_queued h s v ne room =
    rw (==_of_ne s.runnext null ne) (refl, size-push h v.queue room, push-capacity s.local_queue h)

schedule_all-pending :
    (hs : List Handle) (s : Scheduler)
    → IsReady s
    → s.runnext ≢ null
    → NonNull hs
    → size s.local_queue + length hs ≤ s.local_queue.capacity
    → IsReady (schedule_all hs s) × (pending (schedule_all hs s) ≡ pending s ++ hs)
unfolding schedule_all
schedule_all-pending [] s v ne all fits = (v, sym (append-nil (pending s)))
schedule_all-pending (h ∷ hs) s v ne (first, all) fits =
    let room : size s.local_queue < s.local_queue.capacity = omega (arith, fits) in
    let (v1, grown) = schedule_refines h v first room in
    let (next, more, same) = schedule_queued h s v ne room in
    let (v2, rest) =
      schedule_all-pending hs (schedule h s) v1 (λ e. ne (sym next ∙ e)) all
        (omega (arith, fits, more, same)) in
    (
      v2,
      rest
          ∙ ap (λ xs. xs ++ hs) (grown ∙ rw (==_of_ne s.runnext null ne) refl)
          ∙ append_assoc (pending s) (h ∷ []) hs,
    )

schedule_first :
    (h : Handle) (s : Scheduler)
    → (s.runnext == null) ≡ true
    → ((schedule h s).runnext ≡ h) × ((schedule h s).local_queue ≡ s.local_queue)
unfolding schedule
schedule_first h s e = rw e (refl, refl)

idle_thread :
    (s : Scheduler)
    → pending s ≡ []
    → ((s.runnext == null) ≡ true) × (contents s.local_queue ≡ []) × (size s.local_queue ≡ 0)
idle_thread s none_left =
    let by_next : Bool → List Handle =
      λ b. if b then contents s.local_queue else s.runnext ∷ contents s.local_queue in
    elim (Bool-cases (s.runnext == null)) [
      | inl e ↦
          let q = s.local_queue in
          let empty : contents q ≡ [] = sym (ap by_next e) ∙ none_left in
          (e, empty, sym (length-window q.buffer q.capacity q.head (size q)) ∙ ap length empty)
      | inr e ↦
          let impossible : s.runnext ∷ contents s.local_queue ≡ [] =
            sym (ap by_next e) ∙ none_left in
          absurd (cc)
    ]

-- On a thread without pending coroutines the new ones run in their order.
pub schedule_all-idle :
    (hs : List Handle) (s : Scheduler)
    → IsReady s
    → pending s ≡ []
    → NonNull hs
    → length hs ≤ s.local_queue.capacity
    → IsReady (schedule_all hs s) × (pending (schedule_all hs s) ≡ hs)
unfolding schedule_all
schedule_all-idle [] s v none_left all fits = (v, none_left)
schedule_all-idle (h ∷ hs) s v none_left (first, all) fits =
    let (e, empty, no_item) = idle_thread s none_left in
    let (v1, grown) = schedule_refines h v first (omega (arith, fits, no_item)) in
    let (next, same) = schedule_first h s e in
    let (v2, rest) =
      schedule_all-pending hs (schedule h s) v1 (λ z. first (sym next ∙ z)) all
        (omega (arith, fits, no_item, ap size same, ap (λ q. q.capacity) same)) in
    let alone : pending (schedule h s) ≡ h ∷ [] = grown ∙ rw e (ap (λ xs. h ∷ xs) empty) in
    (v2, rest ∙ ap (λ xs. xs ++ hs) alone)

pub split_at :
    (n : ℕ) (xs ys zs : List Handle)
    → xs ++ ys ≡ zs
    → length xs ≡ min n (length zs)
    → (xs ≡ take n zs) × (ys ≡ drop n zs)
split_at zero [] ys zs e l = (refl, e)
split_at zero (x ∷ xs) ys zs e l = absurd (omega (arith, l))
split_at (suc n) [] [] [] e l = (refl, refl)
split_at (suc n) [] [] (z ∷ zs) e l = absurd (omega (arith, l))
split_at (suc n) [] (y ∷ ys) zs e l = absurd (omega (arith, l, ap length e))
split_at (suc n) (x ∷ xs) ys [] e l = absurd (omega (arith, l))
split_at (suc n) (x ∷ xs) ys (z ∷ zs) e l =
    let (t, d) = split_at n xs ys zs (cons_tail e) (omega (arith, l)) in
    (ap₂ (λ a b. a ∷ b) (cons_head e) t, d)
