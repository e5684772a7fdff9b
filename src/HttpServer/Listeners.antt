-- ===== src/HttpServer/Listeners.antt =====
-- examples/http_server.cpp: `main`, from the environment to the tasks that listen.
use novaio.Prelude.{
  ℕ, zero, suc, ◌+◌, ◌≤◌, ◌<◌, max, ◌≡◌, refl, sym, ap, ◌∙◌, subst, true, not, ◌&&◌, Option, none,
  some, List, arith, ltb, ◌==◌, if◌then◌else◌, length,
}
use novaio.Runtime.{Core, stop_loop, Runtime, start, not_started, new_workers}
use novaio.Runtime.Lifecycle.{Gave, stop_loop-Gave, new_cores-IsCore}
use novaio.HttpServer.{size_or, env_size_or, main_sizes, dispatch_loop}

dispatch_loop-stop_loop :
    {T : Type 0} (task : T) (n i : ℕ) (cores : List (Core T))
    → (dispatch_loop task n i cores).0 ≡ stop_loop n i task cores
unfolding dispatch_loop stop_loop
dispatch_loop-stop_loop task zero i cores = refl
dispatch_loop-stop_loop task (suc n) i cores = dispatch_loop-stop_loop task n (i + 1) _

parsed_or-positive :
    (parsed end fallback : ℕ)
    → 0 < fallback
    → 0 < (if not (end == 0) && ltb 0 parsed then parsed else fallback)
parsed_or-positive parsed end fallback pos = ground arith

module _ {S : Type 0} (getenv : S → Option S) (strtoul : S → ℕ × ℕ) where
  size_or-positive :
      (value : Option S) (fallback : ℕ) → 0 < fallback → 0 < size_or getenv strtoul value fallback
  unfolding size_or
  size_or-positive none fallback pos = pos
  size_or-positive (some value) fallback pos =
      parsed_or-positive (strtoul value).0 (strtoul value).1 fallback pos

  env_size_or-positive :
      (name : S) (fallback : ℕ) → 0 < fallback → 0 < env_size_or getenv strtoul name fallback
  unfolding env_size_or
  env_size_or-positive name fallback pos = size_or-positive (getenv name) fallback pos

  main_sizes-bounds :
      (a b : S) (hardware : ℕ)
      → (0 < (main_sizes getenv strtoul a b hardware).1)
        × ((main_sizes getenv strtoul a b hardware).1 ≤ (main_sizes getenv strtoul a b hardware).0)
  unfolding main_sizes
  main_sizes-bounds a b hardware =
      let cores : ℕ = env_size_or getenv strtoul a (max 1 hardware) in
      let some_core : 0 < cores = env_size_or-positive a (max 1 hardware) (omega arith) in
      (omega (arith, some_core, env_size_or-positive b cores some_core), omega arith)

  -- Whatever the environment says, `main` starts at least one core and gives the task that listens to
  -- at least one: to the first cores, one task each and no other, while the inboxes of the rest stay
  -- empty. No core has begun to run tasks.
  pub main-Gave :
      {T : Type 0} (task : T) (novaio_cores novaio_listeners : S) (hardware : ℕ)
      → (cores listeners : ℕ)
      → main_sizes getenv strtoul novaio_cores novaio_listeners hardware ≡ (cores, listeners)
      → (rt : Runtime T) × (start cores not_started ≡ some rt)
        × (0 < listeners)
        × (listeners ≤ cores)
        × (length (dispatch_loop task listeners 0 rt.schedulers).0 ≡ cores)
        × Gave listeners task (dispatch_loop task listeners 0 rt.schedulers).0
  unfolding start
  main-Gave task a b hardware cores listeners e =
      let (made, started, count, all) = new_cores-IsCore task cores in
      let (gave, same) = stop_loop-Gave task listeners made all in
      let (some_listener, fewer) = main_sizes-bounds a b hardware in
      let loop = dispatch_loop-stop_loop task listeners 0 made in
      (
        record { is_running = true; schedulers = made; workers = new_workers cores 0 },
        rw started refl,
        omega (arith, ap (λ p. p.1) e, some_listener),
        omega (arith, ap (λ p. p.0) e, ap (λ p. p.1) e, fewer),
        ap length loop ∙ same ∙ count,
        subst (Gave listeners task) (sym loop) gave,
      )
