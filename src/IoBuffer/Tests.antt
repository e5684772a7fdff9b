-- ===== src/IoBuffer/Tests.antt =====
-- include/novaio/io_buffer.hpp: the theorem at four objects.
use novaio.Prelude.{◌≡◌, refl, [], ◌∷◌}
use novaio.IoBuffer.{IoBuffer, destroy, release, move_construct}
use novaio.IoBuffer.Ownership.{all_owned, assign_all, ended, destroy-move}

abbrev third : IoBuffer
third = record { id = 3; data_ptr = 4096; sched = 64 }

abbrev fourth : IoBuffer
fourth = record { id = 4; data_ptr = 6144; sched = 64 }

-- an object that owns nothing
abbrev moved : IoBuffer
moved = record { id = 9; data_ptr = 0; sched = 64 }

returned : destroy fourth (destroy third []) ≡ (64, 3) ∷ (64, 4) ∷ []
unfolding destroy release
returned = refl

owned_by_three : all_owned (third ∷ moved ∷ fourth ∷ []) ≡ (64, 3) ∷ (64, 4) ∷ []
owned_by_three = refl

destroy-move_example :
    destroy
      (move_construct third).1
      (ended (assign_all (move_construct third).0 (moved ∷ fourth ∷ []) []))
    ≡ all_owned (third ∷ moved ∷ fourth ∷ [])
destroy-move_example = destroy-move third (moved ∷ fourth ∷ []) []
