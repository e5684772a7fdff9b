-- ===== src/Task/Frames.antt =====
-- include/novaio/task.hpp: the memory of a coroutine's frame, from `operator new` of its promise to
-- `operator delete`. The calls of mimalloc are written to a log.
use novaio.Prelude.{ℕ, ◌≡◌, refl, ◌≢◌, List, [], ◌∷◌, ◌==◌, if◌then◌else◌, ==_of_ne}
use novaio.Handle.{Handle, null}
use novaio.Task.Ownership.{Task, owners, destroy_all, destroy_all-owners, destroy}

pub data FrameCall : Type 0 where
  heap_malloc : ℕ → ℕ → FrameCall
  malloc : ℕ → FrameCall
  free_size : Handle → ℕ → FrameCall

-- `operator new` of the promises, by `current_thread_heap`
unfoldable pub operator_new : ℕ → ℕ → FrameCall
operator_new current_thread_heap size =
    if current_thread_heap == null then malloc size else heap_malloc current_thread_heap size

unfoldable pub operator_delete : Handle → ℕ → FrameCall
operator_delete ptr size = free_size ptr size

-- A call of a coroutine whose frame is at `coro`: `get_return_object` gives the task, and
-- `initial_suspend` suspends before the body.
unfoldable pub get_return_object : Handle → Task
get_return_object coro = record { coro = coro }

-- A frame that is destroyed is given back.
abbrev pub frees : ℕ → List Handle → List FrameCall
frees size [] = []
frees size (coro ∷ destroyed) = operator_delete coro size ∷ frees size destroyed

-- A coroutine takes its frame from the heap of its thread, if that has one. However often its `Task` is
-- moved, the destructors of all owners give the frame back once, with the size that it was taken with.
pub frame-life :
    (current_thread_heap size coro n : ℕ)
    → coro ≢ null
    → operator_new current_thread_heap size
        ∷ frees size (destroy_all (owners n (get_return_object coro)) [])
      ≡ (if current_thread_heap == null then malloc size else heap_malloc current_thread_heap size)
        ∷ free_size coro size
        ∷ []
unfolding operator_new operator_delete get_return_object destroy
frame-life current_thread_heap size coro n ne =
    rw (destroy_all-owners n (record { coro = coro }) [], ==_of_ne coro null ne) refl
