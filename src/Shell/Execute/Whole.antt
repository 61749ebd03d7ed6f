-- ===== src/Shell/Execute/Whole.antt =====
-- That command_execute of lab3-src/command.c connects a row of programs and puts the shell's own
-- descriptors back.
use cs.Common.{
  ℕ, suc, ◌+◌, ◌≡◌, refl, sym, ap, subst, ◌∙◌, Bool, false, Bool-cases, inl, inr, List, [], ◌∷◌,
  ◌++◌, All, Option, none, some, length, same_text, codes, ltb, ◌==◌, if◌then◌else◌, arith,
}
use cs.Common.Slots.{garbage, item}
use cs.Shell.Table.{SimpleCommand, Command}
use cs.Shell.Filled.{IsTable}
use cs.Shell.Cleared.{AllFilled, command_clear-IsTable}
use cs.Shell.Execute.Descriptors.{reads, appends, Kernel, IsFresh, IsKernel, Opens, chosen, IsShell}
use cs.Shell.Execute.{
  Saved, Event, ambiguous, waits, prompts, Executed, returns, open_or_dup, out_mode, wait_for,
  with_command, run, execute_all, command_execute,
}
use cs.Shell.Execute.Rounds.{apart, Ready, Ready-small}
use cs.Shell.Execute.Pipeline.{IsProgram, Wired, open_or_dup-Gives, loop-Wired}

module _ (k : Kernel) where
  abbrev pub warning : Command → List (Event k)
  warning c = if ltb 1 c.outfile_counter then ambiguous ∷ [] else []

  -- The shell waits for the last process, if the command is not in the background, and prompts.
  abbrev pub ending : Command → (pid : ℕ) → List (Event k)
  ending c pid = if c.is_background == 0 then waits pid ∷ prompts ∷ [] else prompts ∷ []

module _ (k : Kernel) (laws : IsKernel k) where
  -- The table once the three descriptors are saved and the first input is open.
  Ready-begun :
      (t t1 t2 t3 t4 : k.Table) (a b d n : ℕ) (input output errors first : k.File)
      → IsShell k t input output errors
      → IsFresh k t a input t1
      → IsFresh k t1 b output t2
      → IsFresh k t2 d errors t3
      → IsFresh k t3 n first t4
      → Ready k laws t t4 a b d n input output errors first
  Ready-begun t t1 t2 t3 t4 a b d n input output errors first s fa fb fd fn =
      let a1 : k.at t1 a ≡ some input = ground (arith, fa.1 a) in
      let ba = apart k laws t1 b a input fb.0 a1 in
      let a2 : k.at t2 a ≡ some input = ground (arith, fb.1 a, a1, ba) in
      let b2 : k.at t2 b ≡ some output = ground (arith, fb.1 b) in
      let da = apart k laws t2 d a input fd.0 a2 in
      let db = apart k laws t2 d b output fd.0 b2 in
      let a3 : k.at t3 a ≡ some input = ground (arith, fd.1 a, a2, da) in
      let b3 : k.at t3 b ≡ some output = ground (arith, fd.1 b, b2, db) in
      let d3 : k.at t3 d ≡ some errors = ground (arith, fd.1 d) in
      let na = apart k laws t3 n a input fn.0 a3 in
      let nb = apart k laws t3 n b output fn.0 b3 in
      let nd = apart k laws t3 n d errors fn.0 d3 in
      let free_b : k.at t b ≡ none = ground (arith, fa.1 b, fb.0, ba) in
      let free_d : k.at t d ≡ none = ground (arith, fa.1 d, fb.1 d, fd.0, da, db) in
      let free_n : k.at t n ≡ none = ground (arith, fa.1 n, fb.1 n, fd.1 n, fn.0, na, nb, nd) in
      let low = Ready-small k laws t input output errors in
      let la = low a s fa.0 in
      let lb = low b s free_b in
      let ld = low d s free_d in
      let ln = low n s free_n in
      record {
        tmpin = ground (arith, fn.1 a, a3, na);
        tmpout = ground (arith, fn.1 b, b3, nb);
        tmperr = ground (arith, fn.1 d, d3, nd);
        fdin = ground (arith, fn.1 n);
        free_in = fa.0;
        free_out = free_b;
        free_err = free_d;
        free_fdin = free_n;
        differ = (ground (arith, ba), ground (arith, da), ground (arith, db));
        other = (na, nb, nd);
        some_in =
            (input, ground (arith, fn.1 0, fd.1 0, fb.1 0, fa.1 0, s.zero_in, la, lb, ld, ln));
        some_out =
            (output, ground (arith, fn.1 1, fd.1 1, fb.1 1, fa.1 1, s.one_out, la, lb, ld, ln));
        err = ground (arith, fn.1 2, fd.1 2, fb.1 2, fa.1 2, s.two_err, la, lb, ld, ln);
        rest = λ m small saved away. ground (arith, fn.1 m, fd.1 m, fb.1 m, fa.1 m, saved, away);
      }

  -- The saved descriptors, as execute_all passes them on.
  execute_all-run :
      (forks : ℕ → Option ℕ) (chdir : List ℕ → Bool) (getenv : List ℕ → Option (List ℕ))
      (c : Command) (t t1 t2 t3 t4 : k.Table) (a b d n : ℕ)
      → k.dup t 0 ≡ (some a, t1)
      → k.dup t1 1 ≡ (some b, t2)
      → k.dup t2 2 ≡ (some d, t3)
      → open_or_dup k t3 c.in_file reads (some a) ≡ (some n, t4)
      → execute_all k forks chdir getenv c t
        ≡ run k forks chdir getenv c.num_simple_commands 0 c
            (record { tmpin = some a; tmpout = some b; tmperr = some d })
            (some n)
            garbage
            t4
            (if ltb 1 c.outfile_counter then ambiguous ∷ [] else [])
  unfolding execute_all
  execute_all-run forks chdir getenv c t t1 t2 t3 t4 a b d n ea eb ed en =
      rw ea (rw eb (rw ed (rw en refl)))

  wait_for-returns :
      (c : Command) (commands : List SimpleCommand) (pid : ℕ) (t : k.Table)
      (events : List (Event k))
      → IsTable c commands
      → AllFilled commands
      → (c' : Command) × (wait_for k c (item pid) t events
          ≡ returns c' t (events ++ ending k c pid))
        × IsTable c' []
  wait_for-returns c commands pid t events h filled = elim (Bool-cases (c.is_background == 0)) [
    | inl e ↦
        let waited : Command = record c { last_pid = pid } in
        let table : IsTable waited commands = record {
          count = h.count;
          room = h.room;
          spare = h.spare;
          some_room = h.some_room;
          stored = h.stored;
        } in
        let (c', done, empty, _, _) = command_clear-IsTable waited commands table filled in
        (
          c',
          rw e (
              ap (λ r. with_command k r (λ c. returns c t (events ++ (waits pid ∷ prompts ∷ []))))
                done),
          empty,
        )
    | inr e ↦
        let (c', done, empty, _, _) = command_clear-IsTable c commands h filled in
        (
          c',
          rw e (ap (λ r. with_command k r (λ c. returns c t (events ++ (prompts ∷ [])))) done),
          empty,
        )
  ]

  pub command_execute-all :
      (forks : ℕ → Option ℕ) (chdir : List ℕ → Bool) (getenv : List ℕ → Option (List ℕ))
      (c : Command) (s : SimpleCommand) (name : List ℕ) (t : k.Table)
      → (c.num_simple_commands == 0) ≡ false
      → c.simple_commands.slot 0 ≡ item s
      → s.arguments.slot 0 ≡ item name
      → same_text name (codes "exit") ≡ false
      → command_execute k forks chdir getenv c t ≡ execute_all k forks chdir getenv c t
  unfolding command_execute
  command_execute-all forks chdir getenv c s name t more here named no_exit =
      rw more (rw here (rw named (rw no_exit refl)))

  saved_in :
      (t t1 t2 t3 : k.Table) (a b d : ℕ) (input output errors : k.File)
      → IsFresh k t a input t1
      → IsFresh k t1 b output t2
      → IsFresh k t2 d errors t3
      → k.at t3 a ≡ some input
  saved_in t t1 t2 t3 a b d input output errors fa fb fd =
      let a1 : k.at t1 a ≡ some input = ground (arith, fa.1 a) in
      let ba = apart k laws t1 b a input fb.0 a1 in
      let a2 : k.at t2 a ≡ some input = ground (arith, fb.1 a, a1, ba) in
      let da = apart k laws t2 d a input fd.0 a2 in ground (arith, fd.1 a, a2, da)

  pub execute_all-begun :
      (forks : ℕ → Option ℕ) (chdir : List ℕ → Bool) (getenv : List ℕ → Option (List ℕ))
      (c : Command) (t : k.Table) (input output errors : k.File)
      → IsShell k t input output errors
      → Opens k c.in_file reads
      → (a : ℕ) × (b : ℕ) × (d : ℕ) × (n : ℕ) × (t4 : k.Table) × (execute_all k forks chdir getenv c
            t
          ≡ run k forks chdir getenv c.num_simple_commands 0 c
              (record { tmpin = some a; tmpout = some b; tmperr = some d })
              (some n)
              garbage
              t4
              (warning k c))
        × Ready k laws t t4 a b d n input output errors (chosen k c.in_file reads input)
  execute_all-begun forks chdir getenv c t input output errors shell opens_in =
      let (a, t1, ea, fa) = laws.dup_law t 0 input shell.zero_in in
      let one : k.at t1 1 ≡ some output =
        ground (arith, fa.1 1, shell.one_out, apart k laws t a 1 output fa.0 shell.one_out) in
      let (b, t2, eb, fb) = laws.dup_law t1 1 output one in
      let a_two = apart k laws t a 2 errors fa.0 shell.two_err in
      let two1 : k.at t1 2 ≡ some errors = ground (arith, fa.1 2, shell.two_err, a_two) in
      let b_two = apart k laws t1 b 2 errors fb.0 two1 in
      let two : k.at t2 2 ≡ some errors = ground (arith, fb.1 2, two1, b_two) in
      let (d, t3, ed, fd) = laws.dup_law t2 2 errors two in
      let kept : k.at t3 a ≡ some input = saved_in t t1 t2 t3 a b d input output errors fa fb fd in
      let (n, t4, en, fn) = open_or_dup-Gives k laws c.in_file reads t3 a input opens_in kept in
      (
        a,
        b,
        d,
        n,
        t4,
        execute_all-run forks chdir getenv c t t1 t2 t3 t4 a b d n ea eb ed en,
        Ready-begun t t1 t2 t3 t4 a b d n input output errors (chosen k c.in_file reads input) shell
            fa fb fd fn,
      )

  module _ (pids : ℕ → ℕ) (chdir : List ℕ → Bool) (getenv : List ℕ → Option (List ℕ)) (c : Command)
      (s : SimpleCommand) (ss : List SimpleCommand) (t : k.Table)
      (input output errors : k.File) where
    -- A run of the whole command comes to this result.
    abbrev Completes : Executed k → Type 0
    Completes result =
        (c' : Command) × (t' : k.Table) × (es : List (Event k)) × (result
          ≡ returns c' t' ((warning k c ++ es) ++ ending k c (pids (length ss))))
        × Wired k laws errors (chosen k c.out_file (out_mode k c) output)
            (chosen k c.err_file appends errors) (chosen k c.in_file reads input) s ss es
        × ((m : ℕ) → k.at t' m ≡ k.at t m)
        × IsTable c' []

    run-Completes :
        (a b d n : ℕ) (t4 : k.Table)
        → IsShell k t input output errors
        → IsTable c (s ∷ ss)
        → AllFilled (s ∷ ss)
        → All IsProgram (s ∷ ss)
        → Opens k c.err_file appends
        → Opens k c.out_file (out_mode k c)
        → Ready k laws t t4 a b d n input output errors (chosen k c.in_file reads input)
        → Completes (
            run k
              (λ i. some (pids i))
              chdir
              getenv
              (suc (length ss))
              0
              c
              (record { tmpin = some a; tmpout = some b; tmperr = some d })
              (some n)
              garbage
              t4
              (warning k c))
    run-Completes a b d n t4 shell h filled programs opens_err opens_out ready =
        let (es, t', done, wired, same) =
          loop-Wired k laws pids chdir getenv s ss 0 c t t4 a b d n input output errors
            (chosen k c.in_file reads input) garbage (warning k c) shell (omega (arith, h.count))
            h.stored programs opens_err opens_out ready in
        let (c', ended, empty) =
          wait_for-returns c (s ∷ ss) (pids (0 + length ss)) t' (warning k c ++ es) h filled in
        let pid : pids (0 + length ss) ≡ pids (length ss) = ap pids (omega arith) in
        (
          c',
          t',
          es,
          done ∙ ended ∙ ap (λ q. returns c' t' ((warning k c ++ es) ++ ending k c q)) pid,
          wired,
          same,
          empty,
        )

  -- A command with programs for all its simple commands, where every call on descriptors, and every
  -- fork, succeeds: a process is made for each of them in turn, with its output joined to the input of
  -- the next by a pipe, the first input and the last output and errors being the files that the
  -- command names, or else the shell's own. Behind it every descriptor of the shell is as it was, and
  -- the command is cleared.
  pub command_execute-Wired :
      (pids : ℕ → ℕ) (chdir : List ℕ → Bool) (getenv : List ℕ → Option (List ℕ)) (c : Command)
      (s : SimpleCommand) (ss : List SimpleCommand) (t : k.Table) (input output errors : k.File)
      → IsShell k t input output errors
      → IsTable c (s ∷ ss)
      → AllFilled (s ∷ ss)
      → All IsProgram (s ∷ ss)
      → Opens k c.in_file reads
      → Opens k c.err_file appends
      → Opens k c.out_file (out_mode k c)
      → (c' : Command) × (t' : k.Table) × (es : List (Event k)) × (command_execute k
            (λ i. some (pids i))
            chdir
            getenv
            c
            t
          ≡ returns c' t' ((warning k c ++ es) ++ ending k c (pids (length ss))))
        × Wired k laws errors
            (chosen k c.out_file (out_mode k c) output)
            (chosen k c.err_file appends errors)
            (chosen k c.in_file reads input)
            s
            ss
            es
        × ((m : ℕ) → k.at t' m ≡ k.at t m)
        × IsTable c' []
  command_execute-Wired pids chdir getenv c s ss t input output errors shell h filled programs
        opens_in opens_err opens_out =
      let forks : ℕ → Option ℕ = λ i. some (pids i) in
      let (a, b, d, n, t4, begun, ready) =
        execute_all-begun forks chdir getenv c t input output errors shell opens_in in
      let saved : Saved = record { tmpin = some a; tmpout = some b; tmperr = some d } in
      let more : (c.num_simple_commands == 0) ≡ false = ground (arith, h.count) in
      subst (Completes pids chdir getenv c s ss t input output errors)
        (sym (
          command_execute-all forks chdir getenv c s programs.0.name t more h.stored.0
            programs.0.stored programs.0.no_exit
          ∙ begun
          ∙ ap (λ count. run k forks chdir getenv count 0 c saved (some n) garbage t4 (warning k c))
              h.count))
        (run-Completes pids chdir getenv c s ss t input output errors a b d n t4 shell h filled
          programs opens_err opens_out ready)
