-- ===== src/Task/Ownership.antt =====
-- include/novaio/task.hpp: who destroys the frame of a coroutine. A `Task` owns its frame; that of a
-- `DetachedTask` ends with its body.
use novaio.Prelude.{ℕ, zero, suc, ◌≡◌, refl, ◌∙◌, Bool, List, [], ◌∷◌, ◌++◌, ◌==◌, if◌then◌else◌}
use novaio.Handle.{Handle, null}

pub record Task : Type 0 where
  pub coro : Handle

-- `Task(Task&&)`: the new owner, and the old one
unfoldable pub move_construct : Task → Task × Task
move_construct t = (t, record { coro = null })

-- `~Task`, with the frames that are destroyed so far
unfoldable pub destroy : Task → List Handle → List Handle
destroy t destroyed = if t.coro == null then destroyed else destroyed ++ t.coro ∷ []

-- What becomes of a detached coroutine: it waits for its first resumption, its frame is freed, or the
-- program has ended.
pub data Detached : Type 0 where
  suspended freed terminated : Detached

-- `initial_suspend` of `DetachedTask`
unfoldable pub initial_suspend : Detached
initial_suspend = suspended

-- the end of its body, by whether it threw: `unhandled_exception`, or `return_void` and `final_suspend`,
-- which does not suspend
unfoldable pub end_detached : Bool → Detached
end_detached threw = if threw then terminated else freed

-- the owners after `n` moves, the last of them first
abbrev pub owners : ℕ → Task → List Task
owners zero t = t ∷ []
owners (suc n) t = owners n (move_construct t).0 ++ (move_construct t).1 ∷ []

abbrev pub destroy_all : List Task → List Handle → List Handle
destroy_all [] destroyed = destroyed
destroy_all (t ∷ ts) destroyed = destroy_all ts (destroy t destroyed)

destroy_all-append :
    (ts us : List Task) (destroyed : List Handle)
    → destroy_all (ts ++ us) destroyed ≡ destroy_all us (destroy_all ts destroyed)
destroy_all-append [] us destroyed = refl
destroy_all-append (t ∷ ts) us destroyed = destroy_all-append ts us (destroy t destroyed)

-- However often a `Task` is moved, the destructors of all its owners destroy its frame once.
pub destroy_all-owners :
    (n : ℕ) (t : Task) (destroyed : List Handle)
    → destroy_all (owners n t) destroyed ≡ destroy t destroyed
unfolding move_construct destroy
destroy_all-owners zero t destroyed = refl
destroy_all-owners (suc n) t destroyed =
    destroy_all-append (owners n t) (record { coro = null } ∷ []) destroyed
    ∙ destroy_all-owners n t destroyed
