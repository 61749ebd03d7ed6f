-- ===== src/Shell/Execute/Last.antt =====
-- The descriptors behind the last simple command of command_execute of lab3-src/command.c.
use cs.Common.{
  ℕ, ◌≤◌, ◌≡◌, ◌≢◌, subst, Bool-cases, inl, inr, Option, none, some, ◌==◌, ltb, if◌then◌else◌,
  arith,
}
use cs.Shell.Execute.Descriptors.{Kernel, IsFresh, IsKernel, IsShell}
use cs.Shell.Execute.{redirect, restore}
use cs.Shell.Execute.Rounds.{apart, redirect-at, Ready, Ready-small, Ready-Busy}

module _ (k : Kernel) (laws : IsKernel k) where
  -- The saved descriptors restored and closed.
  restore-at :
      (t : k.Table) (a b c : ℕ) (input output errors : k.File)
      → k.at t a ≡ some input
      → k.at t b ≡ some output
      → k.at t c ≡ some errors
      → 3 ≤ a
      → 3 ≤ b
      → 3 ≤ c
      → (m : ℕ)
      → k.at (restore k (record { tmpin = some a; tmpout = some b; tmperr = some c }) t) m ≡ (
          if m == c
          then none
          else if m == b
          then none
          else if m == a
          then none
          else if m == 2
          then some errors
          else if m == 1
          then some output
          else if m == 0
          then some input
          else k.at t m)
  unfolding restore
  restore-at t a b c input output errors ha hb hc a3 b3 c3 m =
      let t1 = k.dup2 t a 0 in
      let at1 = laws.dup2_law t a 0 input ha in
      let t2 = k.dup2 t1 b 1 in
      let at2 = laws.dup2_law t1 b 1 output (ground (arith, at1 b, hb, b3)) in
      let t3 = k.dup2 t2 c 2 in
      let at3 = laws.dup2_law t2 c 2 errors (ground (arith, at2 c, at1 c, hc, c3)) in
      let t4 = k.close t3 a in
      let t5 = k.close t4 b in
      ground (
        arith,
        laws.close_law t5 c m,
        laws.close_law t4 b m,
        laws.close_law t3 a m,
        at3 m,
        at2 m,
        at1 m,
      )

  module _ (t0 t : k.Table) (a b c n : ℕ) (input output errors first : k.File)
      (s : IsShell k t0 input output errors)
      (h : Ready k laws t0 t a b c n input output errors first) (t2 t4 : k.Table) (e o : ℕ)
      (fe fo : k.File) (opened_err : IsFresh k (redirect k t (some n) 0) e fe t2)
      (opened_out : IsFresh k (redirect k t2 (some e) 2) o fo t4) where
    err-at :
        (m : ℕ)
        → k.at (redirect k t2 (some e) 2) m
          ≡ (if m == e then none else if m == 2 then some fe else k.at (redirect k t (some n) 0) m)
    err-at m =
        ground
          (arith, redirect-at k laws t2 e 2 fe (ground (arith, opened_err.1 e)) m, opened_err.1 m)

    out-at :
        (m : ℕ)
        → k.at (redirect k t4 (some o) 1) m
          ≡ (if m == o then none else if m == 1 then some fo else k.at (redirect k t2 (some e) 2) m)
    out-at m =
        ground
          (arith, redirect-at k laws t4 o 1 fo (ground (arith, opened_out.1 o)) m, opened_out.1 m)

    -- A descriptor in use behind the redirection of the input is in use for the last command.
    pub Last-keeps :
        (m : ℕ) (f : k.File)
        → k.at (redirect k t (some n) 0) m ≡ some f
        → (m ≢ 1) × (m ≢ 2)
        → k.at (redirect k t4 (some o) 1) m ≡ some f
    Last-keeps m f used low =
        let t1 = redirect k t (some n) 0 in
        let t3 = redirect k t2 (some e) 2 in
        let e_apart = apart k laws t1 e m f opened_err.0 used in
        let kept : k.at t3 m ≡ some f = ground (arith, err-at m, used, e_apart, low) in
        let o_apart = apart k laws t3 o m f opened_out.0 kept in
        ground (arith, out-at m, kept, o_apart, low)

    pub Last-IsShell : IsShell k (redirect k t4 (some o) 1) first fo fe
    Last-IsShell =
        let u = Ready-Busy k laws t0 t a b c n input output errors first s h in
        let t3 = redirect k t2 (some e) 2 in
        let t1 = redirect k t (some n) 0 in
        let e1 = apart k laws t1 e 1 u.in_1.0 opened_err.0 u.in_1.1 in
        let e2 = apart k laws t1 e 2 errors opened_err.0 u.in_2 in
        let kept : k.at t3 1 ≡ some u.in_1.0 = ground (arith, err-at 1, u.in_1.1, e1) in
        let now : k.at t3 2 ≡ some fe = ground (arith, err-at 2, e2) in
        let o1 = apart k laws t3 o 1 u.in_1.0 opened_out.0 kept in
        let o2 = apart k laws t3 o 2 fe opened_out.0 now in
        record {
          zero_in = Last-keeps 0 first u.in_0 (omega arith, omega arith);
          one_out = ground (arith, out-at 1, o1);
          two_err = ground (arith, out-at 2, o2, now);
        }

    -- The other descriptors are as they were.
    Last-other :
        (m : ℕ)
        → (m ≢ 0) × (m ≢ 1) × (m ≢ 2)
        → (m ≢ a) × (m ≢ b) × (m ≢ c)
        → k.at (redirect k t4 (some o) 1) m ≡ k.at t0 m
    Last-other m low others =
        let t1 = redirect k t (some n) 0 in
        let t3 = redirect k t2 (some e) 2 in
        let before : k.at t1 m ≡ k.at t0 m = elim (Bool-cases (m == n)) [
          | inl same ↦
              let same_n : n ≡ m = ground arith in
              let free = subst (λ m. k.at t0 m ≡ none) same_n h.free_fdin in
              ground (arith, redirect-at k laws t n 0 first h.fdin m, free)
          | inr other ↦
              let away : m ≢ n = ground arith in
              ground (arith, redirect-at k laws t n 0 first h.fdin m, h.rest m low others away, low)
        ] in
        let at_err : k.at t3 m ≡ k.at t0 m = elim (Bool-cases (m == e)) [
          | inl same ↦
              let same_e : e ≡ m = ground arith in
              let free = subst (λ m. k.at t1 m ≡ none) same_e opened_err.0 in
              ground (arith, err-at m, free, before)
          | inr other ↦ ground (arith, err-at m, before, low)
        ] in
        elim (Bool-cases (m == o)) [
          | inl same ↦
              let same_o : o ≡ m = ground arith in
              let free = subst (λ m. k.at t3 m ≡ none) same_o opened_out.0 in
              ground (arith, out-at m, free, at_err)
          | inr other ↦ ground (arith, out-at m, at_err, low)
        ]

    -- A saved descriptor is closed again.
    saved_at :
        (m : ℕ) {x : Option k.File}
        → x ≡ (
            if m == c
            then none
            else if m == b
            then none
            else if m == a
            then none
            else if m == 2
            then some errors
            else if m == 1
            then some output
            else if m == 0
            then some input
            else k.at (redirect k t4 (some o) 1) m)
        → 3 ≤ m
        → x ≡ k.at t0 m
    saved_at m back high = elim (Bool-cases (m == a)) [
      | inl is_a ↦
          let a_m : a ≡ m = ground arith in
          let was = subst (λ m. k.at t0 m ≡ none) a_m h.free_in in ground (arith, back, was)
      | inr not_a ↦ elim (Bool-cases (m == b)) [
        | inl is_b ↦
            let b_m : b ≡ m = ground arith in
            let was = subst (λ m. k.at t0 m ≡ none) b_m h.free_out in ground (arith, back, was)
        | inr not_b ↦ elim (Bool-cases (m == c)) [
          | inl is_c ↦
              let c_m : c ≡ m = ground arith in
              let was = subst (λ m. k.at t0 m ≡ none) c_m h.free_err in ground (arith, back, was)
          | inr not_c ↦
              let same =
                Last-other m (ground arith, ground arith, ground arith)
                  (ground arith, ground arith, ground arith) in
              ground (arith, back, same)
        ]
      ]
    ]

    -- With the saved descriptors restored, the table is as it was at the beginning.
    pub Last-restores :
        (m : ℕ)
        → k.at
            (restore k
              (record { tmpin = some a; tmpout = some b; tmperr = some c })
              (redirect k t4 (some o) 1))
            m
          ≡ k.at t0 m
    Last-restores m =
        let u = Ready-Busy k laws t0 t a b c n input output errors first s h in
        let small = Ready-small k laws t0 input output errors in
        let a3 = small a s h.free_in in
        let b3 = small b s h.free_out in
        let c3 = small c s h.free_err in
        let back =
          restore-at (redirect k t4 (some o) 1) a b c input output errors
            (Last-keeps a input u.in_a (omega arith, omega arith))
            (Last-keeps b output u.in_b (omega arith, omega arith))
            (Last-keeps c errors u.in_c (omega arith, omega arith)) a3 b3 c3 m in
        elim (Bool-cases (ltb m 3)) [
          | inl low ↦ elim (Bool-cases (m == 0)) [
            | inl is0 ↦
                let zero_m : 0 ≡ m = ground arith in
                let was = subst (λ m. k.at t0 m ≡ some input) zero_m s.zero_in in
                ground (arith, back, was, a3, b3, c3)
            | inr not0 ↦ elim (Bool-cases (m == 1)) [
              | inl is1 ↦
                  let one_m : 1 ≡ m = ground arith in
                  let was = subst (λ m. k.at t0 m ≡ some output) one_m s.one_out in
                  ground (arith, back, was, a3, b3, c3)
              | inr not1 ↦
                  let two_m : 2 ≡ m = ground arith in
                  let was = subst (λ m. k.at t0 m ≡ some errors) two_m s.two_err in
                  ground (arith, back, was, a3, b3, c3)
            ]
          ]
          | inr high ↦ saved_at m back (ground arith)
        ]
