-- ===== src/Reactions/Tests.antt =====
-- The theorem about lab4-src/part2.c where one atom of oxygen was created.
use cs.Common.{sum, as_number, ◌≡◌, refl, [], ◌∷◌, true, some}
use cs.Reactions.{
  atom_of_oxygen, Pot, create_oxygen, create_nitrogen, create_n2, create_o2, create_no2, create_o3,
  Stage, testing, locking, reading, working, unlocking, worker, advance, Mixture, Turn, step, mixed,
  Reached, start, next,
}
use cs.Reactions.Mutex.{inside, Reached-Exclusive}
use cs.Reactions.Atoms.{Conserves, Reached-Conserves}

-- main's threads, with the thread that creates oxygen at a place.
abbrev creating : Pot → Stage → Mixture
creating s p = record {
  shared = s;
  threads =
      record { role = create_oxygen 1; place = p; i = 0 }
      ∷ worker (create_nitrogen 0)
      ∷ worker create_o2
      ∷ worker create_n2
      ∷ worker create_no2
      ∷ worker create_o3
      ∷ [];
}

abbrev begun : Pot
begun = (mixed 1 0).shared

abbrev held : Pot
held = record begun { locked = true }

abbrev created : Pot
created = record held { num_oxygen = 1; lines = atom_of_oxygen ∷ [] }

creating-Turn :
    (s s' : Pot) (p p' : Stage)
    → advance p s (record { role = create_oxygen 1; place = p; i = 0 })
      ≡ some (s', record { role = create_oxygen 1; place = p'; i = 0 })
    → Turn (creating s p) (creating s' p')
creating-Turn s s' p p' e = step s s' [] _ _ _ e

created-Reached : Reached 1 0 (creating created unlocking)
unfolding advance
created-Reached =
    next (creating held (working 0)) _
      (next (creating held reading) _
        (next (creating begun locking) _
          (next (creating begun testing) _ start (creating-Turn begun begun testing locking refl))
          (creating-Turn begun held locking reading refl))
        (creating-Turn held held reading (working 0) refl))
      (creating-Turn held created (working 0) unlocking refl)

Reached-Conserves_example : Conserves created
Reached-Conserves_example = Reached-Conserves 1 0 (creating created unlocking) created-Reached

Reached-Exclusive_example : sum inside (creating created unlocking).threads ≡ as_number true
Reached-Exclusive_example = Reached-Exclusive 1 0 (creating created unlocking) created-Reached
