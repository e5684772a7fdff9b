-- ===== src/Scheduler/Inbox/Drains.antt =====
-- src/scheduler.cpp: what `process_inbox` does with the tasks of the inbox, and with those that they push.
use novaio.Prelude.{
  ℕ, zero, suc, ◌+◌, ◌%◌, ◌^◌, ◌≤◌, ◌<◌, ◌≡◌, refl, sym, ◌∙◌, subst, ◌≢◌, inl, inr, some, List, [],
  ◌∷◌, ◌++◌, append-nil, append_assoc, arith, ==_of_ne, length, All, length-append,
}
use novaio.Queues.Spsc.{SpscQueue, push, pop}
use novaio.Queues.Spsc.Refine.{Holds, push-Pushes}
use novaio.Queues.Spsc.Pop.{pop-Pops}
use novaio.Scheduler.Inbox.{
  UniqueTask, Call, invoke, delete, empty_task, make_task, cleanup, move_assign, call, is_set, Turn,
  push_inbox, push_all, process_loop, process_inbox,
}

-- the calls that tasks of the inbox lead to: each runs, and is deleted
abbrev pub calls_of : List UniqueTask → List Call
calls_of [] = []
calls_of (t ∷ ts) = invoke t.invoker t.ptr ∷ delete t.deleter t.ptr ∷ calls_of ts

-- tasks that are made of a callable
abbrev pub AreSet : List UniqueTask → Type 0
AreSet = All (λ t. (t.invoker ≢ 0) × (t.deleter ≢ 0))

-- A task that the constructor makes, with the functions for the type of its callable, is one.
make_task-AreSet :
    (buf invoker deleter : ℕ) (ts : List UniqueTask)
    → invoker ≢ 0
    → deleter ≢ 0
    → AreSet ts
    → AreSet (make_task buf invoker deleter ∷ ts)
unfolding make_task
make_task-AreSet buf invoker deleter ts run del set = ((run, del), set)

pub AreSet-append : (xs ys : List UniqueTask) → AreSet xs → AreSet ys → AreSet (xs ++ ys)
AreSet-append [] ys u v = v
AreSet-append (x ∷ xs) ys (one, u) v = (one, AreSet-append xs ys u v)

pub push-capacity : (q : SpscQueue UniqueTask) (t : UniqueTask) → (push q t).1.capacity ≡ q.capacity
unfolding push
push-capacity q t = ground arith

pop-capacity : (q : SpscQueue UniqueTask) → (pop q).1.capacity ≡ q.capacity
unfolding pop
pop-capacity q = ground arith

push_all-Holds :
    (ts : List UniqueTask) (q : SpscQueue UniqueTask) (xs : List UniqueTask)
    → Holds q xs
    → length xs + length ts ≤ q.capacity
    → Holds (push_all ts q) (xs ++ ts) × ((push_all ts q).capacity ≡ q.capacity)
unfolding push_all push_inbox
push_all-Holds [] q xs h room = (subst (Holds q) (sym (append-nil xs)) h, refl)
push_all-Holds (t ∷ ts) q xs h room = elim (push-Pushes q xs t h) [
  | inr (refused, full, same) ↦ absurd (omega arith)
  | inl (done, fits, h1) ↦
      let (h', same) =
        push_all-Holds ts (push q t).1 (xs ++ t ∷ []) h1
          (omega (arith, length-append xs (t ∷ []), push-capacity q t)) in
      (subst (Holds _) (append_assoc xs (t ∷ []) ts) h', same ∙ push-capacity q t)
]

cleanup-append :
    (t : UniqueTask) (c : Call) (xs ys : List Call)
    → t.deleter ≢ 0
    → cleanup t (xs ++ c ∷ []) ++ ys ≡ xs ++ c ∷ delete t.deleter t.ptr ∷ ys
unfolding cleanup
cleanup-append t c xs ys del =
    rw (==_of_ne t.deleter 0 del, append_assoc (xs ++ c ∷ []) (delete t.deleter t.ptr ∷ []) ys)
      (append_assoc xs (c ∷ []) (delete t.deleter t.ptr ∷ ys))

-- `weight` bounds the tasks that a task leads to: itself, those that it pushes, and so on.
module _ (spawns : UniqueTask → List UniqueTask) (weight : UniqueTask → ℕ) where
  abbrev pub total : List UniqueTask → ℕ
  total [] = 0
  total (t ∷ ts) = weight t + total ts

  -- the tasks in the order in which they run, at most `n` of them: those that a task pushes come last
  abbrev pub in_order : ℕ → List UniqueTask → List UniqueTask
  in_order zero ts = []
  in_order (suc n) [] = []
  in_order (suc n) (t ∷ ts) = t ∷ in_order n (ts ++ spawns t)

  total-append : (xs ys : List UniqueTask) → total (xs ++ ys) ≡ total xs + total ys
  total-append [] ys = omega arith
  total-append (x ∷ xs) ys = omega (arith, total-append xs ys)

  module _ (spawned_set : (t : UniqueTask) → AreSet (spawns t))
      (lighter : (t : UniqueTask) → total (spawns t) < weight t) where
    pub length-le-total : (ts : List UniqueTask) → length ts ≤ total ts
    length-le-total [] = omega arith
    length-le-total (t ∷ ts) = omega (arith, length-le-total ts, lighter t)

    process_loop-calls :
        (fuel : ℕ) (s : Turn) (ts : List UniqueTask)
        → total ts < fuel
        → total ts ≤ s.inbox.capacity
        → s.processed < 2 ^ 64
        → Holds s.inbox ts
        → AreSet ts
        → (s' : Turn) × (process_loop spawns fuel s ≡ some s')
          × Holds s'.inbox []
          × (cleanup s'.task s'.log ≡ cleanup s.task s.log ++ calls_of (in_order fuel ts))
          × (s'.processed ≡ (s.processed + length (in_order fuel ts)) % 2 ^ 64)
    unfolding process_loop move_assign call is_set
    process_loop-calls zero s ts l room small h set = absurd (omega arith)
    process_loop-calls (suc fuel) s [] l room small h set =
        let (nothing_left, same) = pop-Pops s.inbox [] h in
        (
          record s { inbox = (pop s.inbox).1 },
          rw (process_loop, nothing_left) refl,
          subst (λ q. Holds q []) (sym same) h,
          sym (append-nil (cleanup s.task s.log)),
          omega arith,
        )
    process_loop-calls (suc fuel) s (t ∷ ts) l room small h ((run, del), set) =
        let (first, h') = pop-Pops s.inbox (t ∷ ts) h in
        let weights = total-append ts (spawns t) in
        let (h2, same) = push_all-Holds (spawns t) (pop s.inbox).1 ts h' (
          omega (
            arith,
            pop-capacity s.inbox,
            length-le-total ts,
            length-le-total (spawns t),
            lighter t,
          )) in
        let s1 : Turn = record {
          inbox = push_all (spawns t) (pop s.inbox).1;
          task = t;
          log = cleanup s.task s.log ++ invoke t.invoker t.ptr ∷ [];
          processed = (s.processed + 1) % 2 ^ 64;
        } in
        let later : List UniqueTask = ts ++ spawns t in
        let (s', runs, empty, calls, count) =
          process_loop-calls fuel s1 later (omega (arith, weights, lighter t))
            (omega (arith, weights, lighter t, same, pop-capacity s.inbox)) (omega arith) h2
            (AreSet-append ts (spawns t) set (spawned_set t)) in
        (
          s',
          rw (process_loop, first, ==_of_ne t.invoker 0 run) runs,
          empty,
          calls
              ∙ cleanup-append t (invoke t.invoker t.ptr) (cleanup s.task s.log)
                  (calls_of (in_order fuel later)) del,
          omega (arith, count),
        )

    -- `process_inbox` on an inbox of tasks that are made of callables ends, if the fuel exceeds the
    -- number of tasks that these lead to and the inbox has room for as many. It runs each task once and
    -- then deletes it, in the order of the inbox and those that a task pushes behind all others, leaves
    -- the inbox empty, and counts the tasks.
    pub process_inbox-calls :
        (fuel : ℕ) (inbox : SpscQueue UniqueTask) (processed : ℕ) (ts : List UniqueTask)
        → total ts < fuel
        → total ts ≤ inbox.capacity
        → processed < 2 ^ 64
        → Holds inbox ts
        → AreSet ts
        → (inbox' : SpscQueue UniqueTask) × (process_inbox spawns fuel inbox processed
            ≡ some (
              inbox',
              calls_of (in_order fuel ts),
              (processed + length (in_order fuel ts)) % 2 ^ 64,
            ))
          × Holds inbox' []
    unfolding process_inbox cleanup
    process_inbox-calls fuel inbox processed ts l room small h set =
        let s : Turn = record {
          inbox = inbox;
          task = empty_task;
          log = [];
          processed = processed;
        } in
        let (s', runs, empty, calls, count) = process_loop-calls fuel s ts l room small h set in
        (s'.inbox, rw (runs, calls, count) refl, empty)
