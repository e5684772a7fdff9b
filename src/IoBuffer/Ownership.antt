-- ===== src/IoBuffer/Ownership.antt =====
-- include/novaio/io_buffer.hpp: the buffers that objects own, through moves.
use novaio.Prelude.{
  ◌≡◌, refl, sym, ap, ◌∙◌, inl, inr, not, ◌&&◌, List, [], ◌∷◌, ◌++◌, append-nil, append_assoc, ◌==◌,
  if◌then◌else◌, Bool-cases,
}
use novaio.IoBuffer.{IoBuffer, Log, nullptr, release, move_construct, move_assign, destroy}

-- the buffer that an object owns, if it does own one, with the scheduler to whose engine it belongs
abbrev pub owned : IoBuffer → Log
owned b =
    if not (b.data_ptr == nullptr) && not (b.sched == nullptr) then (b.sched, b.id) ∷ [] else []

-- the buffers of the objects of a list
abbrev pub all_owned : List IoBuffer → Log
all_owned [] = []
all_owned (b ∷ bs) = owned b ++ all_owned bs

-- One object is assigned all others in turn by move: that object, what it leaves of them, and the log.
abbrev pub assign_all : IoBuffer → List IoBuffer → Log → IoBuffer × List IoBuffer × Log
assign_all self [] log = (self, [], log)
assign_all self (b ∷ bs) log =
    let (self, left, log) = move_assign self b log in
    let (self, all_left, log) = assign_all self bs log in (self, left ∷ all_left, log)

-- the destructors of objects
abbrev pub destroy_all : List IoBuffer → Log → Log
destroy_all [] log = log
destroy_all (b ∷ bs) log = destroy_all bs (destroy b log)

destroy-owned : (b : IoBuffer) (log : Log) → destroy b log ≡ log ++ owned b
unfolding destroy release
destroy-owned b log = elim (Bool-cases (not (b.data_ptr == nullptr) && not (b.sched == nullptr))) [
  | inl e ↦ rw (destroy, release, e) refl
  | inr e ↦ rw (destroy, release, e) (sym (append-nil log))
]

move_assign-parts :
    (self b : IoBuffer) (log : Log)
    → move_assign self b log ≡ (b, record b { data_ptr = nullptr }, destroy self log)
unfolding move_assign destroy
move_assign-parts self b log = refl

move_construct-parts : (b : IoBuffer) → move_construct b ≡ (b, record b { data_ptr = nullptr })
unfolding move_construct
move_construct-parts b = refl

-- all objects end, the one that was assigned to first
abbrev pub ended : IoBuffer × List IoBuffer × Log → Log
ended (self, left, log) = destroy_all left (destroy self log)

destroy-left : (b : IoBuffer) (log : Log) → destroy (record b { data_ptr = nullptr }) log ≡ log
unfolding destroy release
destroy-left b log = refl

assign_all-owned :
    (self : IoBuffer) (bs : List IoBuffer) (log : Log)
    → ended (assign_all self bs log) ≡ log ++ (owned self ++ all_owned bs)
assign_all-owned self [] log =
    destroy-owned self log ∙ ap (λ l. log ++ l) (sym (append-nil (owned self)))
assign_all-owned self (b ∷ bs) log =
    let x = assign_all b bs (destroy self log) in
    rw (move_assign-parts self b log) (
      ap (destroy_all x.1) (destroy-left b (destroy x.0 x.2))
      ∙ assign_all-owned b bs (destroy self log)
      ∙ ap (λ l. l ++ (owned b ++ all_owned bs)) (destroy-owned self log)
      ∙ append_assoc log (owned self) (owned b ++ all_owned bs))

-- An object that is made by move, and is then assigned any number of others by move in turn: when it and
-- all that it was moved from have ended, each buffer that one of those owned has been returned once, in
-- the order of the moves. Nothing else is returned.
pub destroy-move :
    (b : IoBuffer) (bs : List IoBuffer) (log : Log)
    → destroy (move_construct b).1 (ended (assign_all (move_construct b).0 bs log))
      ≡ log ++ all_owned (b ∷ bs)
destroy-move b bs log = rw (move_construct-parts b) (destroy-left b _ ∙ assign_all-owned b bs log)
