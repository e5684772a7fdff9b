-- ===== src/Scheduler/Batch.antt =====
-- src/scheduler.cpp: the runnable coroutines in the order in which batches take them.
use novaio.Prelude.{
  ℕ, zero, suc, ◌+◌, ◌-◌, ◌*◌, ◌^◌, ◌<◌, min, ◌≡◌, refl, sym, ap, ◌∙◌, subst, ◌≢◌, inl, inr, true,
  false, List, [], ◌∷◌, ◌++◌, arith, ◌==◌, if◌then◌else◌, ==_of_ne, Bool-cases, length, All,
}
use novaio.Handle.{Handle, null}
use novaio.Queues.Local.{LocalQueue, pop}
use novaio.Queues.Local.Refine.{IsValid, size, contents, push_refines, pop_refines}
use novaio.Scheduler.{
  Scheduler, schedule, dequeue_loop, try_dequeue_batch, Wait, wait_cqe, peek_cqe, wait_cqe_timeout,
  wait_for,
}

abbrev pub NonNull : List Handle → Type 0
NonNull = All (λ h. h ≢ null)

-- Null handles are not queued.
pub record IsReady (s : Scheduler) : Type 0 where
  pub queue : IsValid s.local_queue
  pub handles : NonNull (contents s.local_queue)

abbrev pub pending : Scheduler → List Handle
pending s = if s.runnext == null then contents s.local_queue else s.runnext ∷ contents s.local_queue

All-snoc : (xs : List Handle) (h : Handle) → NonNull xs → h ≢ null → NonNull (xs ++ h ∷ [])
All-snoc [] h all ne = (ne, tt)
All-snoc (x ∷ xs) h (first, all) ne = (first, All-snoc xs h all ne)

-- A handle that is scheduled goes behind all others if `runnext_` is taken, where the queue must have
-- room, and ahead of all others if not.
pub schedule_refines :
    {s : Scheduler} (h : Handle)
    → IsReady s
    → h ≢ null
    → size s.local_queue < s.local_queue.capacity
    → IsReady (schedule h s)
      × (pending (schedule h s)
          ≡ (if s.runnext == null then h ∷ pending s else pending s ++ h ∷ []))
unfolding schedule
schedule_refines {s} h v ne room = elim (Bool-cases (s.runnext == null)) [
  | inl e ↦ rw (e, ==_of_ne h null ne) (record { queue = v.queue; handles = v.handles }, refl)
  | inr e ↦
      let (valid, appended) = push_refines h v.queue room in
      rw (e, appended)
        (
          record {
            queue = valid;
            handles = rw appended (All-snoc (contents s.local_queue) h v.handles ne);
          },
          rw e,
        )
]

-- what the loop takes from the queue, and what it leaves
abbrev pub Takes : ℕ → LocalQueue → List Handle × LocalQueue → Type 0
Takes n q (batch, q') =
    (batch ++ contents q' ≡ contents q)
    × (length batch ≡ min n (length (contents q)))
    × IsValid q'
    × NonNull (contents q')

dequeue_loop-Takes :
    (n : ℕ) (q : LocalQueue) → IsValid q → NonNull (contents q) → Takes n q (dequeue_loop n q)
unfolding dequeue_loop
dequeue_loop-Takes zero q v all = (refl, omega arith, v, all)
dequeue_loop-Takes (suc n) q v all = elim (pop_refines v) [
  | inl (e, is_null, same) ↦
      let stop : ((pop q).0 == null) ≡ true = rw is_null in
      rw stop (
        ap contents same,
        omega (arith, ap length e),
        subst IsValid (sym same) v,
        subst (λ r. NonNull (contents r)) (sym same) all,
      )
  | inr (e, v') ↦
      let (ne, all') : NonNull ((pop q).0 ∷ contents (pop q).1) = subst NonNull e all in
      let go : ((pop q).0 == null) ≡ false = ==_of_ne (pop q).0 null ne in
      let (rest, count, v'', all'') = dequeue_loop-Takes n (pop q).1 v' all' in
      rw go (ap (λ hs. (pop q).0 ∷ hs) rest ∙ sym e, omega (arith, count, ap length e), v'', all'')
]

-- A batch is the first pending handles, all of them or `max_count`, and the others stay in order.
-- `runnext_` is free afterwards.
pub try_dequeue_batch_refines :
    {s : Scheduler} (max_count : ℕ)
    → IsReady s
    → 0 < max_count
    → ((try_dequeue_batch max_count s).0 ++ pending (try_dequeue_batch max_count s).1 ≡ pending s)
      × (length (try_dequeue_batch max_count s).0 ≡ min max_count (length (pending s)))
      × ((try_dequeue_batch max_count s).1.runnext ≡ null)
      × IsReady (try_dequeue_batch max_count s).1
unfolding try_dequeue_batch
try_dequeue_batch_refines {s} max_count v some_room = elim (Bool-cases (s.runnext == null)) [
  | inl e ↦
      let (rest, count, valid, all) =
        dequeue_loop-Takes max_count s.local_queue v.queue v.handles in
      rw e (rest, count, refl, record { queue = valid; handles = all })
  | inr e ↦
      let (rest, count, valid, all) =
        dequeue_loop-Takes (max_count - 1) s.local_queue v.queue v.handles in
      rw e (
        ap (λ hs. s.runnext ∷ hs) rest,
        omega (arith, count),
        refl,
        record { queue = valid; handles = all },
      )
]

-- the time in nanoseconds that a wait lasts at most, and whether its nanoseconds are fewer than a second's
abbrev pub Lasts : ℕ → Wait → Type 0
Lasts t wait_cqe = t ≡ 2 ^ 64 - 1
Lasts t peek_cqe = t ≡ 0
Lasts t (wait_cqe_timeout seconds nanoseconds) =
    (seconds * 1000000000 + nanoseconds ≡ t * 1000000) × (nanoseconds < 1000000000) × (0 < t)

-- The wait lasts exactly the milliseconds that are asked for, the greatest `uint64_t` being for good,
-- with a valid number of nanoseconds.
pub wait_for-Lasts : (t : ℕ) → Lasts t (wait_for t)
unfolding wait_for
wait_for-Lasts t = elim (Bool-cases (t == 2 ^ 64 - 1)) [
  | inl e ↦ rw e (ground arith)
  | inr ne ↦ rw ne (elim (Bool-cases (t == 0)) [
    | inl e ↦ rw e (ground arith)
    | inr nz ↦ rw nz (omega arith, omega arith, ground arith)
  ])
]
