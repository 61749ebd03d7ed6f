-- ===== src/Reactions/Atoms.antt =====
-- That no atom is lost in the reactions of lab4-src/part2.c.
use cs.Common.{
  sum, ℕ, ◌+◌, ◌*◌, ◌%◌, ◌≡◌, refl, subst, inl, inr, Bool-cases, ◌==◌, Option, none, some, arith,
}
use cs.Reactions.{
  Report, atom_of_oxygen, atom_of_nitrogen, molecule_of_n2, molecule_of_o2, molecules_of_no2, Pot,
  Role, create_oxygen, create_nitrogen, create_n2, create_o2, create_no2, create_o3, Stage, testing,
  waiting, locking, reading, working, unlocking, checking, posting, taking, storing, checking_o3,
  posting_o3, ended, Worker, react, wait, waited, post, advance, Mixture, step, Reached, start,
  next,
}

-- Lines that sum for one, in sums.
abbrev pub oxygen : Report → ℕ
oxygen atom_of_oxygen = 1
oxygen _ = 0

abbrev pub nitrogen : Report → ℕ
nitrogen atom_of_nitrogen = 1
nitrogen _ = 0

abbrev pub o2 : Report → ℕ
o2 molecule_of_o2 = 1
o2 _ = 0

abbrev pub n2 : Report → ℕ
n2 molecule_of_n2 = 1
n2 _ = 0

abbrev pub no2 : Report → ℕ
no2 molecules_of_no2 = 1
no2 _ = 0

-- The counters and the printed lines agree, modulo 2^32.
abbrev pub Conserves : Pot → Type 0
Conserves s =
    ((s.num_oxygen + 2 * sum o2 s.lines) % 4294967296 ≡ sum oxygen s.lines % 4294967296)
    × ((s.num_nitrogen + 2 * sum n2 s.lines) % 4294967296 ≡ sum nitrogen s.lines % 4294967296)
    × ((s.num_n2 + sum no2 s.lines) % 4294967296 ≡ sum n2 s.lines % 4294967296)

react-Conserves : (r : Role) (v : ℕ) (s : Pot) → Conserves s → Conserves (react r v s)
react-Conserves (create_oxygen n) v s h =
    (omega (arith, h.0), omega (arith, h.1), omega (arith, h.2))
react-Conserves (create_nitrogen n) v s h =
    (omega (arith, h.0), omega (arith, h.1), omega (arith, h.2))
react-Conserves create_n2 v s h = (omega (arith, h.0), omega (arith, h.1), omega (arith, h.2))
react-Conserves create_o2 v s h = (omega (arith, h.0), omega (arith, h.1), omega (arith, h.2))
react-Conserves create_no2 v s h = (omega (arith, h.0), omega (arith, h.1), omega (arith, h.2))
react-Conserves create_o3 v s h = (omega (arith, h.0), omega (arith, h.1), omega (arith, h.2))

-- What a thread comes to, if it can go on, conserves too.
abbrev Kept : Option (Pot × Worker) → Type 0
Kept none = Unit
Kept (some (s, t)) = Conserves s

waited-Kept : (r : Role) (s : Pot) (t : Worker) → Conserves s → Kept (waited (wait r s) t)
waited-Kept (create_oxygen n) s t h = tt
waited-Kept (create_nitrogen n) s t h = tt
waited-Kept create_n2 s t h = elim (Bool-cases (s.sig_n2 == 0)) [ inl e ↦ rw e tt | inr e ↦ rw e h ]
waited-Kept create_o2 s t h = elim (Bool-cases (s.sig_o2 == 0)) [ inl e ↦ rw e tt | inr e ↦ rw e h ]
waited-Kept create_no2 s t h = elim (Bool-cases (s.sig_no2 == 0)) [
  | inl e ↦ rw e tt
  | inr e ↦ rw e h
]
waited-Kept create_o3 s t h = elim (Bool-cases (s.sig_o3 == 0)) [ inl e ↦ rw e tt | inr e ↦ rw e h ]

post-Conserves : (r : Role) (s : Pot) → Conserves s → Conserves (post r s)
post-Conserves (create_oxygen n) s h = h
post-Conserves (create_nitrogen n) s h = h
post-Conserves create_n2 s h = h
post-Conserves create_o2 s h = h
post-Conserves create_no2 s h = h
post-Conserves create_o3 s h = h

advance-Kept : (p : Stage) (s : Pot) (t : Worker) → Conserves s → Kept (advance p s t)
unfolding advance
advance-Kept waiting s t h = waited-Kept t.role s t h
advance-Kept locking s t h = elim (Bool-cases s.locked) [ inl e ↦ rw e tt | inr e ↦ rw e h ]
advance-Kept (working v) s t h = react-Conserves t.role v s h
advance-Kept posting s t h = post-Conserves t.role s h
advance-Kept ended s t h = tt
advance-Kept testing s t h = h
advance-Kept reading s t h = h
advance-Kept unlocking s t h = h
advance-Kept checking s t h = h
advance-Kept taking s t h = h
advance-Kept (storing v) s t h = h
advance-Kept checking_o3 s t h = h
advance-Kept posting_o3 s t h = h

-- In every reachable state the counters agree with the printed lines, modulo 2^32: the oxygen atoms
-- left and two for each line of O2 are the atoms of oxygen created, so too for nitrogen and N2, and
-- the N2 left and one for each line of NO2 are the N2 produced.
pub Reached-Conserves :
    (oxy_num nit_num : ℕ) (y : Mixture) → Reached oxy_num nit_num y → Conserves y.shared
Reached-Conserves oxy_num nit_num y start = (refl, refl, refl)
Reached-Conserves oxy_num nit_num y (next y0 y' r (step s s' xs ys t t' e)) =
    subst Kept e (advance-Kept t.place s t (Reached-Conserves oxy_num nit_num y0 r))
