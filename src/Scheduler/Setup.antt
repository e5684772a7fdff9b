-- ===== src/Scheduler/Setup.antt =====
-- include/novaio/scheduler.hpp and src/scheduler.cpp: a scheduler from its constructor through the start
-- of `run` on its worker thread to its destructor, which another thread may run. The calls of the system
-- and of mimalloc are written to a log; `init` of the engine is that of IoEngine/Init.
use novaio.Prelude.{
  ℕ, ◌^◌, ◌≡◌, refl, ap, ◌≢◌, inl, inr, Bool, false, ◌||◌, Option, none, some, List, [], ◌∷◌, ◌++◌,
  arith, ltb, ◌==◌, if◌then◌else◌, eq_of_==, ==_self, ==_of_ne, Bool-cases,
}
use novaio.IoEngine.Init.{Outcome, returns, system_error, bad_alloc}
use novaio.Metrics.{MetricsRegistry, register_thread, unregister_thread}
use novaio.Scheduler.Numa.{Text, detect_numa_node}

-- a `mi_heap_t*` or a `Scheduler*`
abbrev pub Ptr : Type 0
Ptr = ℕ

abbrev nullptr : Ptr
nullptr = 0

-- the members that no other part of the model has
pub record SchedulerObject : Type 0 where
  pub id : ℕ
  pub thread_heap : Ptr

-- the variables of a thread; `current_thread_metrics` is named by its address
pub record ThreadLocals : Type 0 where
  pub current_thread_heap : Ptr
  pub current_scheduler_ptr : Ptr
  pub current_thread_metrics : ℕ

pub data SystemCall : Type 0 where
  sets_affinity creates_heap deletes_heap : ℕ → SystemCall
  sets_numa_affinity : Ptr → ℕ → SystemCall

-- the constructor
unfoldable pub make : ℕ → SchedulerObject
make id = record { id = id; thread_heap = nullptr }

-- the call for a node, an `int` that is held as its 32-bit representation, if it is not negative
abbrev pub numa_calls : Ptr → Option ℕ → List SystemCall
numa_calls heap none = []
numa_calls heap (some node) = if ltb node (2 ^ 31) then sets_numa_affinity heap node ∷ [] else []

module _ (from_chars : Text → Option (ℕ × Text)) where
  -- `setup_numa_and_affinity`, where `mi_heap_new` gives `heap` and the directory of the processor has
  -- `entries`
  unfoldable pub setup_numa_and_affinity :
      Ptr
      → List Text
      → SchedulerObject
      → ThreadLocals
      → SchedulerObject × ThreadLocals × List SystemCall
  setup_numa_and_affinity heap entries s t = (
    record s { thread_heap = heap },
    record t { current_thread_heap = heap },
    sets_affinity s.id ∷ creates_heap heap ∷ numa_calls heap (detect_numa_node from_chars entries),
  )

  -- `run` of the scheduler at `self` up to its loop, on a thread that takes over the time as its last
  -- tick. An exception of `init` leaves `run`, and the program ends.
  unfoldable pub begin_run :
      Ptr
      → Ptr
      → List Text
      → Outcome
      → SchedulerObject
      → ThreadLocals
      → MetricsRegistry
      → Option (SchedulerObject × ThreadLocals × MetricsRegistry × List SystemCall)
  begin_run self heap entries init s t r =
      let (s, t, calls) = setup_numa_and_affinity heap entries s t in
      elim init [
        | returns ↦ some (
          s,
          record t { current_scheduler_ptr = self },
          register_thread t.current_thread_metrics r,
          calls,
        )
        | system_error err ↦ none
        | bad_alloc ↦ none
      ]

-- the destructor, on a thread with these variables
unfoldable pub destroy :
    SchedulerObject → ThreadLocals → MetricsRegistry → MetricsRegistry × List SystemCall
destroy s t r = (
  unregister_thread t.current_thread_metrics r,
  if s.thread_heap == nullptr then [] else deletes_heap s.thread_heap ∷ [],
)

-- whether the counters at `p` are registered
abbrev pub is_registered : ℕ → MetricsRegistry → Bool
is_registered p [] = false
is_registered p (q ∷ r) = (p == q) || is_registered p r

-- the heaps that calls make and do not delete
abbrev pub made : List SystemCall → List Ptr
made [] = []
made (creates_heap heap ∷ calls) = heap ∷ made calls
made (sets_affinity cpu ∷ calls) = made calls
made (deletes_heap heap ∷ calls) = made calls
made (sets_numa_affinity heap node ∷ calls) = made calls

abbrev pub deleted : List SystemCall → List Ptr
deleted [] = []
deleted (deletes_heap heap ∷ calls) = heap ∷ deleted calls
deleted (sets_affinity cpu ∷ calls) = deleted calls
deleted (creates_heap heap ∷ calls) = deleted calls
deleted (sets_numa_affinity heap node ∷ calls) = deleted calls

unregister-other :
    (p q : ℕ) (r : MetricsRegistry)
    → p ≢ q
    → is_registered q r ≡ false
    → unregister_thread q (register_thread p r) ≡ register_thread p r
unfolding unregister_thread register_thread
unregister-other p q [] ne out = rw (==_of_ne p q ne) refl
unregister-other p q (x ∷ r) ne out = ground (arith, unregister-other p q r ne (ground arith))

unregister-same :
    (p : ℕ) (r : MetricsRegistry)
    → is_registered p r ≡ false
    → unregister_thread p (register_thread p r) ≡ r
unfolding unregister_thread register_thread
unregister-same p [] out = rw (==_self p) refl
unregister-same p (x ∷ r) out = ground (arith, unregister-same p r (ground arith))

unregister-register :
    (p q : ℕ) (r : MetricsRegistry)
    → is_registered p r ≡ false
    → is_registered q r ≡ false
    → unregister_thread q (register_thread p r) ≡ (if q == p then r else register_thread p r)
unregister-register p q r out out' = elim (Bool-cases (q == p)) [
  | inl same ↦ rw (same, eq_of_== q p same) (unregister-same p r out)
  | inr other ↦ rw other (unregister-other p q r (λ e. ground arith) out')
]

numa_calls-heaps :
    (heap : Ptr) (node : Option ℕ)
    → (made (numa_calls heap node) ≡ []) × (deleted (numa_calls heap node) ≡ [])
numa_calls-heaps heap none = (refl, refl)
numa_calls-heaps heap (some node) = elim (Bool-cases (ltb node (2 ^ 31))) [
  | inl e ↦ rw e (refl, refl)
  | inr e ↦ rw e (refl, refl)
]

module _ (from_chars : Text → Option (ℕ × Text)) where
  abbrev pub Begun :
      Ptr
      → Ptr
      → ThreadLocals
      → ThreadLocals
      → MetricsRegistry
      → SchedulerObject × ThreadLocals × MetricsRegistry × List SystemCall
      → Type 0
  Begun self heap t t' r (s, t1, r1, calls) =
      (t1.current_scheduler_ptr ≡ self)
      × (t1.current_thread_heap ≡ heap)
      × (r1 ≡ r ++ t.current_thread_metrics ∷ [])
      × (made calls ≡ heap ∷ [])
      × (deleted calls ≡ [])
      × (made (destroy s t' r1).1 ≡ [])
      × (deleted (destroy s t' r1).1 ≡ heap ∷ [])
      × ((destroy s t' r1).0 ≡ (
          if t'.current_thread_metrics == t.current_thread_metrics
          then r
          else r ++ t.current_thread_metrics ∷ []))

  -- If the engine starts, and the counters of neither thread are registered before, `run` makes the
  -- scheduler and its heap those of the thread, and puts the thread's counters at the end of the registry.
  -- The destructor deletes that heap, and nothing else. But it leaves the registry as it
  -- was before `run` only on the worker's own thread: on a thread whose counters are not registered
  -- those of the worker stay registered.
  pub begin_run-Begun :
      (self heap id : ℕ) (entries : List Text) (t t' : ThreadLocals) (r : MetricsRegistry)
      → heap ≢ 0
      → is_registered t.current_thread_metrics r ≡ false
      → is_registered t'.current_thread_metrics r ≡ false
      → (b : SchedulerObject × ThreadLocals × MetricsRegistry × List SystemCall) × (begin_run
            from_chars self heap entries returns
            (make id)
            t
            r
          ≡ some b)
        × Begun self heap t t' r b
  unfolding begin_run setup_numa_and_affinity make destroy register_thread
  begin_run-Begun self heap id entries t t' r ne out out' =
      let node : Option ℕ = detect_numa_node from_chars entries in
      let (no_heap, no_delete) = numa_calls-heaps heap node in
      let set : (heap == nullptr) ≡ false = ==_of_ne heap nullptr ne in
      (
        _,
        refl,
        (
          refl,
          refl,
          refl,
          ap (λ hs. heap ∷ hs) no_heap,
          no_delete,
          rw set refl,
          rw set refl,
          unregister-register t.current_thread_metrics t'.current_thread_metrics r out out',
        ),
      )
