-- ===== src/Queues/Window.antt =====
-- include/novaio/concurrent_queues.hpp: a run of slots of a ring of `cap` slots, oldest first.
use native.Mathlib.Nat.{mod-add-mod, mod-eq_of_lt, mod-eq-sub-mod}
use native.Mathlib.Decide.{dec_lt}
use novaio.Prelude.{
  ℕ, zero, suc, ◌+◌, ◌-◌, ◌%◌, ◌≤◌, ◌<◌, ◌≡◌, refl, sym, ap, ap₂, ◌∙◌, ◌≢◌, List, [], ◌∷◌, ◌++◌,
  arith, ◌==◌, if◌then◌else◌, ==_self, ==_of_ne, length,
}

module _ {ℓ} {A : Type ℓ} where
  -- `buffer[i] = v`
  abbrev pub write : (ℕ → A) → ℕ → A → ℕ → A
  write buf i v j = if j == i then v else buf j

  -- `n` slots from position `h` on; positions grow without bound and are reduced on access.
  abbrev pub window : (ℕ → A) → ℕ → ℕ → ℕ → List A
  window buf cap h zero = []
  window buf cap h (suc n) = buf (h % cap) ∷ window buf cap (h + 1) n

  pub length-window : (buf : ℕ → A) (cap h n : ℕ) → length (window buf cap h n) ≡ n
  length-window buf cap h zero = refl
  length-window buf cap h (suc n) = ap suc (length-window buf cap (h + 1) n)

-- Fewer than `cap` steps round a ring do not come back.
pub mod-ne : (cap a d : ℕ) → 0 < d → d < cap → a % cap ≢ (a + d) % cap
mod-ne cap a d p q e = elim (dec_lt (a % cap + d) cap) [
  | yes small ↦ omega (arith, mod-add-mod a cap d, mod-eq_of_lt small)
  | no big ↦ omega (
    arith,
    mod-add-mod a cap d,
    mod-eq-sub-mod {n = a % cap + d} {m = cap} (omega arith),
    mod-eq_of_lt {n = a % cap + d - cap} {m = cap} (omega arith),
  )
]

module _ {ℓ} {A : Type ℓ} where
  -- A window depends on its start modulo the capacity only.
  pub window_congr :
      (buf : ℕ → A) (cap n h k : ℕ) → h % cap ≡ k % cap → window buf cap h n ≡ window buf cap k n
  window_congr buf cap zero h k e = refl
  window_congr buf cap (suc n) h k e = ap₂ ◌∷◌ (ap buf e) (
      window_congr buf cap n (h + 1) (k + 1)
        (sym (mod-add-mod h cap 1) ∙ ap (λ t. (t + 1) % cap) e ∙ mod-add-mod k cap 1))

  -- A write at another slot leaves a window as it was.
  pub window-write_ne :
      (buf : ℕ → A) (cap n h p : ℕ) (x : A)
      → h + n ≤ p
      → p < h + cap
      → window (write buf (p % cap) x) cap h n ≡ window buf cap h n
  window-write_ne buf cap zero h p x lo hi = refl
  window-write_ne buf cap (suc n) h p x lo hi =
      ap₂ ◌∷◌ (rw (==_of_ne (h % cap) (p % cap) apart))
        (window-write_ne buf cap n (h + 1) p x (omega arith) (omega arith))
    where
      apart : h % cap ≢ p % cap
      apart e =
          mod-ne cap h (p - h) (omega arith) (omega arith) (e ∙ ap (λ t. t % cap) (omega arith))

  pub window-snoc :
      (buf : ℕ → A) (cap n h : ℕ)
      → window buf cap h (suc n) ≡ window buf cap h n ++ buf ((h + n) % cap) ∷ []
  window-snoc buf cap zero h = ap (λ t. buf (t % cap) ∷ []) (omega arith)
  window-snoc buf cap (suc n) h = ap (◌∷◌ (buf (h % cap))) (
      window-snoc buf cap n (h + 1)
      ∙ ap (λ t. window buf cap (h + 1) n ++ buf (t % cap) ∷ []) (omega arith))

  -- A write at the slot after a window that does not fill the ring makes it longer by that item.
  pub window-write :
      (buf : ℕ → A) (cap n h : ℕ) (x : A)
      → n < cap
      → window (write buf ((h + n) % cap) x) cap h (suc n) ≡ window buf cap h n ++ x ∷ []
  window-write buf cap n h x lt =
      window-snoc (write buf ((h + n) % cap) x) cap n h
      ∙ ap₂ (λ xs y. xs ++ y ∷ [])
          (window-write_ne buf cap n h (h + n) x (omega arith) (omega arith))
          (rw (==_self ((h + n) % cap)))
