-- ===== src/Shell/Execute/Rounds.antt =====
-- The descriptors in the loop of command_execute of lab3-src/command.c.
use cs.Common.{
  ℕ, ◌≤◌, ◌≡◌, ◌≢◌, sym, subst, ◌∙◌, Bool-cases, inl, inr, none, some, ◌==◌, if◌then◌else◌, arith,
}
use cs.Shell.Execute.Descriptors.{Kernel, IsKernel, IsShell}
use cs.Shell.Execute.{redirect}

module _ (k : Kernel) (laws : IsKernel k) where
  -- Not in use and in use.
  pub apart : (t : k.Table) (m j : ℕ) (f : k.File) → k.at t m ≡ none → k.at t j ≡ some f → m ≢ j
  apart t m j f free used = λ e. ground (arith, subst (λ j. k.at t j ≡ some f) (sym e) used)

  -- dup2(fd, n); close(fd);
  pub redirect-at :
      (t : k.Table) (fd n : ℕ) (f : k.File)
      → k.at t fd ≡ some f
      → (m : ℕ)
      → k.at (redirect k t (some fd) n) m
        ≡ (if m == fd then none else if m == n then some f else k.at t m)
  redirect-at t fd n f used m =
      ground (arith, laws.close_law (k.dup2 t fd n) fd m, laws.dup2_law t fd n f used m)

  -- At the head of the loop: the three saved descriptors, what stands for standard error, and that no
  -- other descriptor than fdin has come to use. `t0` is the table at the beginning.
  pub record Ready (t0 t : k.Table) (a b c n : ℕ) (input output errors first : k.File)
      : Type 0 where
    pub tmpin : k.at t a ≡ some input
    pub tmpout : k.at t b ≡ some output
    pub tmperr : k.at t c ≡ some errors
    pub fdin : k.at t n ≡ some first
    pub free_in : k.at t0 a ≡ none
    pub free_out : k.at t0 b ≡ none
    pub free_err : k.at t0 c ≡ none
    pub free_fdin : k.at t0 n ≡ none
    pub differ : (a ≢ b) × (a ≢ c) × (b ≢ c)
    pub other : (n ≢ a) × (n ≢ b) × (n ≢ c)
    pub some_in : (f : k.File) × (k.at t 0 ≡ some f)
    pub some_out : (f : k.File) × (k.at t 1 ≡ some f)
    pub err : k.at t 2 ≡ some errors
    pub rest :
        (m : ℕ)
        → (m ≢ 0) × (m ≢ 1) × (m ≢ 2)
        → (m ≢ a) × (m ≢ b) × (m ≢ c)
        → m ≢ n
        → k.at t m ≡ k.at t0 m

  pub Ready-small :
      (t0 : k.Table) (input output errors : k.File) (m : ℕ)
      → IsShell k t0 input output errors
      → k.at t0 m ≡ none
      → 3 ≤ m
  Ready-small t0 input output errors m h free = omega (
    arith,
    apart t0 m 0 input free h.zero_in,
    apart t0 m 1 output free h.one_out,
    apart t0 m 2 errors free h.two_err,
  )

  -- The table of a simple command whose output is a pipe.
  module _ (t : k.Table) (n : ℕ) (first : k.File) (t2 : k.Table) (r w : ℕ) (fr fw : k.File)
      (used : k.at t n ≡ some first)
      (piped : (m : ℕ)
        → k.at t2 m ≡ (
            if m == r
            then some fr
            else if m == w
            then some fw
            else k.at (redirect k t (some n) 0) m))
      (differ : r ≢ w) where
    piped-at :
        (m : ℕ)
        → k.at (redirect k t2 (some w) 1) m ≡ (
            if m == w
            then none
            else if m == 1
            then some fw
            else if m == r
            then some fr
            else if m == n
            then none
            else if m == 0
            then some first
            else k.at t m)
    piped-at m =
        let open_w : k.at t2 w ≡ some fw = ground (arith, piped w, differ) in
        ground (arith, redirect-at t2 w 1 fw open_w m, piped m, redirect-at t n 0 first used m)

  -- In use behind the redirection of the input, and so apart from what is not.
  pub record Busy (t1 : k.Table) (a b c : ℕ) (input output errors first : k.File) : Type 0 where
    pub in_a : k.at t1 a ≡ some input
    pub in_b : k.at t1 b ≡ some output
    pub in_c : k.at t1 c ≡ some errors
    pub in_0 : k.at t1 0 ≡ some first
    pub in_1 : (f : k.File) × (k.at t1 1 ≡ some f)
    pub in_2 : k.at t1 2 ≡ some errors

  module _ (t0 t : k.Table) (a b c n : ℕ) (input output errors first : k.File)
      (s : IsShell k t0 input output errors)
      (h : Ready t0 t a b c n input output errors first) where
    pub Ready-Busy : Busy (redirect k t (some n) 0) a b c input output errors first
    Ready-Busy =
        let at1 = redirect-at t n 0 first h.fdin in
        let small = Ready-small t0 input output errors in
        let a3 = small a s h.free_in in
        let b3 = small b s h.free_out in
        let c3 = small c s h.free_err in
        let n3 = small n s h.free_fdin in
        record {
          in_a = ground (arith, at1 a, h.tmpin, h.other, a3);
          in_b = ground (arith, at1 b, h.tmpout, h.other, b3);
          in_c = ground (arith, at1 c, h.tmperr, h.other, c3);
          in_0 = ground (arith, at1 0, n3);
          in_1 = (h.some_out.0, ground (arith, at1 1, n3, h.some_out.1));
          in_2 = ground (arith, at1 2, n3, h.err);
        }

    -- What a call takes into use was not in use at the beginning.
    pub free-apart :
        (m : ℕ)
        → k.at (redirect k t (some n) 0) m ≡ none
        → ((m ≢ 0) × (m ≢ 1) × (m ≢ 2)) × ((m ≢ a) × (m ≢ b) × (m ≢ c))
    free-apart m free =
        let u = Ready-Busy in
        let t1 = redirect k t (some n) 0 in
        (
          (
            apart t1 m 0 first free u.in_0,
            apart t1 m 1 u.in_1.0 free u.in_1.1,
            apart t1 m 2 errors free u.in_2,
          ),
          (
            apart t1 m a input free u.in_a,
            apart t1 m b output free u.in_b,
            apart t1 m c errors free u.in_c,
          ),
        )

    pub free-before : (m : ℕ) → k.at (redirect k t (some n) 0) m ≡ none → k.at t0 m ≡ none
    free-before m free =
        let (low, others) = free-apart m free in
        elim (Bool-cases (m == n)) [
          | inl e ↦
              let same : m ≡ n = ground arith in
              subst (λ m. k.at t0 m ≡ none) (sym same) h.free_fdin
          | inr e ↦
              let away : m ≢ n = ground arith in
              let still : k.at t m ≡ none =
                ground (arith, redirect-at t n 0 first h.fdin m, low, away, free) in
              sym (h.rest m low others away) ∙ still
        ]

    -- A round whose output is a pipe: the next input is the end that the output is joined with.
    Ready-ends :
        (t2 : k.Table) (r w : ℕ) (fr fw : k.File)
        → k.at (redirect k t (some n) 0) r ≡ none
        → k.at (redirect k t (some n) 0) w ≡ none
        → r ≢ w
        → ((m : ℕ)
            → k.at t2 m ≡ (
                if m == r
                then some fr
                else if m == w
                then some fw
                else k.at (redirect k t (some n) 0) m))
        → Ready t0 (redirect k t2 (some w) 1) a b c r input output errors fr
          × IsShell k (redirect k t2 (some w) 1) first fw errors
    Ready-ends t2 r w fr fw free_r free_w differ law =
        let u = Ready-Busy in
        let at3 = piped-at t n first t2 r w fr fw h.fdin law differ in
        let (r3, ra) = free-apart r free_r in
        let (w3, wa) = free-apart w free_w in
        let small = Ready-small t0 input output errors in
        let a3 = small a s h.free_in in
        let b3 = small b s h.free_out in
        let c3 = small c s h.free_err in
        let n3 = small n s h.free_fdin in
        (
          record {
            tmpin = ground (arith, at3 a, h.tmpin, h.other, a3, ra, wa);
            tmpout = ground (arith, at3 b, h.tmpout, h.other, b3, ra, wa);
            tmperr = ground (arith, at3 c, h.tmperr, h.other, c3, ra, wa);
            fdin = ground (arith, at3 r, differ, r3);
            free_in = h.free_in;
            free_out = h.free_out;
            free_err = h.free_err;
            free_fdin = free-before r free_r;
            differ = h.differ;
            other = ra;
            some_in = (first, ground (arith, at3 0, r3, w3, n3));
            some_out = (fw, ground (arith, at3 1, w3));
            err = ground (arith, at3 2, r3, w3, n3, h.err);
            rest = λ m low others away. elim (Bool-cases (m == w)) [
              | inl e ↦
                  let same : w ≡ m = ground arith in
                  let before = subst (λ m. k.at t0 m ≡ none) same (free-before w free_w) in
                  ground (arith, at3 m, before)
              | inr e ↦ elim (Bool-cases (m == n)) [
                | inl f ↦
                    let same : n ≡ m = ground arith in
                    let before = subst (λ m. k.at t0 m ≡ none) same h.free_fdin in
                    ground (arith, at3 m, before, low)
                | inr f ↦
                    let apart_n : m ≢ n = ground arith in
                    ground (arith, at3 m, h.rest m low others apart_n, low)
              ]
            ];
          },
          record {
            zero_in = ground (arith, at3 0, r3, w3, n3);
            one_out = ground (arith, at3 1, w3);
            two_err = ground (arith, at3 2, r3, w3, n3, h.err);
          },
        )

    pub Ready-pipe :
        (r : ℕ) × (w : ℕ) × (fr : k.File) × (fw : k.File) × (t2 : k.Table) × (k.pipe
            (redirect k t (some n) 0)
          ≡ some ((r, w), t2))
        × k.joins fw fr
        × Ready t0 (redirect k t2 (some w) 1) a b c r input output errors fr
        × IsShell k (redirect k t2 (some w) 1) first fw errors
    Ready-pipe =
        let (r, w, fr, fw, t2, e, joined, free_r, free_w, differ, law) =
          laws.pipe_law (redirect k t (some n) 0) in
        let (ready, shell) = Ready-ends t2 r w fr fw free_r free_w differ law in
        (r, w, fr, fw, t2, e, joined, ready, shell)
