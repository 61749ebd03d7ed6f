-- ===== src/Shell/Session/Runs.antt =====
-- The shell of lab3-src at a line of programs: from its bytes to the processes.
use cs.Common.{
  ℕ, suc, ◌+◌, ◌≡◌, refl, sym, ap, subst, ◌∙◌, true, false, Bool, List, [], ◌∷◌, ◌++◌, Option, some,
  All, length, if◌then◌else◌, ◌==◌, codes, same_text, ltb,
}
use cs.Shell.Lexer.{Outside}
use cs.Shell.Table.{SimpleCommand, Command}
use cs.Shell.Filled.{IsTable}
use cs.Shell.Cleared.{AllFilled}
use cs.Shell.Grammar.{executes, line_start, CommandAndArgs, SimpleLine}
use cs.Shell.Execute.Descriptors.{Kernel, IsKernel, IsShell, Opens, chosen, Mode, reads, truncates}
use cs.Shell.Execute.{Event, ambiguous, waits, prompts, returns, out_mode, command_execute}
use cs.Shell.Execute.Pipeline.{IsProgram, Wired}
use cs.Shell.Execute.Whole.{warning, ending, command_execute-Wired}
use cs.Shell.Session.{
  World, Session, continues, go_on, after_execution, perform, perform_all, parse,
}
use cs.Shell.Session.Prepared.{
  last_word, any_modifier, names_output, names_errors, names_input, appends, count_modifiers,
}
use cs.Shell.Session.Filled.{words_of, Hold}
use cs.Shell.Session.Line.{IsPrepared, parse-line, line-prepares}
use cs.Shell.Session.Spelled.{IsPlainLine, line_text}

-- The word of a simple command that is not built in.
pub record IsProgramName (name : List ℕ) : Type 0 where
  pub no_exit : same_text name (codes "exit") ≡ false
  pub no_cd : same_text name (codes "cd") ≡ false
  pub no_setenv : same_text name (codes "setenv") ≡ false
  pub no_unsetenv : same_text name (codes "unsetenv") ≡ false

abbrev pub AllPrograms : List CommandAndArgs → Type 0
AllPrograms = All (λ c. IsProgramName c.word)

Hold-IsProgram :
    (ss : List SimpleCommand) (cs : List CommandAndArgs)
    → Hold ss cs
    → AllPrograms cs
    → AllFilled ss × All IsProgram ss
Hold-IsProgram [] [] h programs = (tt, tt)
Hold-IsProgram [] (c ∷ cs) h programs = elim h [ ]
Hold-IsProgram (s ∷ ss) [] h programs = elim h [ ]
Hold-IsProgram (s ∷ ss) (c ∷ cs) h programs =
    let (filled, all_programs) = Hold-IsProgram ss cs h.1 programs.1 in
    let p = programs.0 in
    (
      ((words_of c, h.0), filled),
      (
        record {
          name = c.word;
          stored = h.0.stored.0;
          no_exit = p.no_exit;
          no_cd = p.no_cd;
          no_setenv = p.no_setenv;
          no_unsetenv = p.no_unsetenv;
        },
        all_programs,
      ),
    )

-- The files of a line, where `c` is the table in front of it.
abbrev pub line_output : SimpleLine → Command → Option (List ℕ)
line_output l c = last_word names_output l.iomodifier_list c.out_file

abbrev pub line_input : SimpleLine → Command → Option (List ℕ)
line_input l c = last_word names_input l.iomodifier_list c.in_file

abbrev pub line_errors : SimpleLine → Command → Option (List ℕ)
line_errors l c = last_word names_errors l.iomodifier_list c.err_file

abbrev pub line_mode : SimpleLine → Command → Mode
line_mode l c =
    if (if any_modifier appends l.iomodifier_list then 1 else c.is_appended) == 1
    then Mode.appends
    else truncates

-- What is said of a line with several outputs, and behind its processes.
abbrev pub line_warning : (k : Kernel) → SimpleLine → Command → List (Event k)
line_warning k l c =
    if ltb 1 (c.outfile_counter + count_modifiers names_output l.iomodifier_list)
    then ambiguous ∷ []
    else []

abbrev pub line_ending : (k : Kernel) → SimpleLine → Command → (pid : ℕ) → List (Event k)
line_ending k l c pid =
    if (if l.is_background then 1 else c.is_background) == 0
    then waits pid ∷ prompts ∷ []
    else prompts ∷ []

perform-executes :
    (k : Kernel) (outside : Outside) (world : List (Event k) → World) (σ : Session k) (c : Command)
    (t : k.Table) (events : List (Event k))
    → command_execute k
        (world σ.events).forks
        (world σ.events).chdir
        (world σ.events).getenv
        σ.current_command
        σ.descriptors
      ≡ returns c t events
    → perform_all k outside world (executes ∷ []) σ
      ≡ continues (record σ { current_command = c; descriptors = t; events = σ.events ++ events })
unfolding perform perform_all
perform-executes k outside world σ c t events h =
    ap (λ r. go_on k (after_execution k σ r) (λ σ. continues σ)) h

Hold-length :
    (ss : List SimpleCommand) (cs : List CommandAndArgs) → Hold ss cs → length ss ≡ length cs
Hold-length [] [] h = refl
Hold-length [] (c ∷ cs) h = elim h [ ]
Hold-length (s ∷ ss) [] h = elim h [ ]
Hold-length (s ∷ ss) (c ∷ cs) h = ap suc (Hold-length ss cs h.1)

module _ (k : Kernel) (laws : IsKernel k) (outside : Outside) (world : List (Event k) → World)
    (l : SimpleLine) (σ : Session k) (pids : ℕ → ℕ) (input out errors : k.File) where
  -- The processes of a line.
  abbrev pub LineWired : (s : SimpleCommand) (ss : List SimpleCommand) → List (Event k) → Type 0
  LineWired s ss es =
      Wired k laws errors
        (chosen k (line_output l σ.current_command) (line_mode l σ.current_command) out)
        (chosen k (line_errors l σ.current_command) Mode.appends errors)
        (chosen k (line_input l σ.current_command) reads input) s ss es

  -- What a prepared table names is what the line names.
  module _ (c : Command) (prepared : IsPrepared l σ.current_command c) where
    prepared_mode : out_mode k c ≡ line_mode l σ.current_command
    prepared_mode = ap (λ n. if n == 1 then Mode.appends else truncates) prepared.appended

    prepared-Opens :
        Opens k (line_input l σ.current_command) reads
        → Opens k (line_errors l σ.current_command) Mode.appends
        → Opens k (line_output l σ.current_command) (line_mode l σ.current_command)
        → Opens k c.in_file reads
          × Opens k c.err_file Mode.appends
          × Opens k c.out_file (out_mode k c)
    prepared-Opens opens_in opens_err opens_out = (
      subst (λ f. Opens k f reads) (sym prepared.input) opens_in,
      subst (λ f. Opens k f Mode.appends) (sym prepared.errors) opens_err,
      subst (λ f. Opens k f (out_mode k c)) (sym prepared.output)
          (subst (λ m. Opens k (line_output l σ.current_command) m) (sym prepared_mode) opens_out),
    )

    prepared-Wired :
        (s : SimpleCommand) (ss : List SimpleCommand) (es : List (Event k))
        → Wired k laws errors
            (chosen k c.out_file (out_mode k c) out)
            (chosen k c.err_file Mode.appends errors)
            (chosen k c.in_file reads input)
            s
            ss
            es
        → LineWired s ss es
    prepared-Wired s ss es wired =
        let last = chosen k (line_output l σ.current_command) (line_mode l σ.current_command) out in
        let errs = chosen k (line_errors l σ.current_command) Mode.appends errors in
        let output_same : chosen k c.out_file (out_mode k c) out ≡ last =
          ap (λ f. chosen k f (out_mode k c) out) prepared.output
          ∙ ap (λ m. chosen k (line_output l σ.current_command) m out) prepared_mode in
        let errors_same : chosen k c.err_file Mode.appends errors ≡ errs =
          ap (λ f. chosen k f Mode.appends errors) prepared.errors in
        subst (λ f. Wired k laws errors last errs f s ss es)
          (ap (λ f. chosen k f reads input) prepared.input)
          (subst (λ f. Wired k laws errors last f (chosen k c.in_file reads input) s ss es)
            errors_same
            (subst
              (λ f.
                Wired k laws errors f (chosen k c.err_file Mode.appends errors)
                  (chosen k c.in_file reads input) s ss es)
              output_same wired))

    prepared-events :
        (es : List (Event k)) (pid : ℕ)
        → (warning k c ++ es) ++ ending k c pid
          ≡ (line_warning k l σ.current_command ++ es) ++ line_ending k l σ.current_command pid
    prepared-events es pid =
        ap (λ n. ((if ltb 1 n then ambiguous ∷ [] else []) ++ es) ++ ending k c pid)
          prepared.outputs
        ∙ ap
            (λ n.
              (line_warning k l σ.current_command ++ es)
              ++ (if n == 0 then waits pid ∷ prompts ∷ [] else prompts ∷ []))
            prepared.background

  -- A line of programs, written with single spaces, in plain words that no expansion changes, where
  -- the calls on descriptors and the forks succeed: the shell makes a process for each simple command,
  -- in their order, which holds the words of the line, joined by pipes, with the files that the
  -- modifiers name; it has its own descriptors back, an empty table, and goes on with what is behind
  -- the line.
  pub parse-Wired :
      (b : Bool) (rest : List ℕ)
      → IsPlainLine l
      → AllPrograms (l.first ∷ l.others)
      → IsTable σ.current_command []
      → IsShell k σ.descriptors input out errors
      → (world σ.events).forks ≡ (λ i. some (pids i))
      → Opens k (line_input l σ.current_command) reads
      → Opens k (line_errors l σ.current_command) Mode.appends
      → Opens k (line_output l σ.current_command) (line_mode l σ.current_command)
      → (s : SimpleCommand) × (ss : List SimpleCommand) × (σ' : Session k) × (es : List (Event k))
        × (parse k outside world (line_start b) σ (line_text l rest)
            ≡ parse k outside world (line_start true) σ' rest)
        × Hold (s ∷ ss) (l.first ∷ l.others)
        × LineWired s ss es
        × ((m : ℕ) → k.at σ'.descriptors m ≡ k.at σ.descriptors m)
        × IsTable σ'.current_command []
        × (σ'.events
            ≡ σ.events
              ++ ((line_warning k l σ.current_command ++ es)
                  ++ line_ending k l σ.current_command (pids (length l.others))))
  parse-Wired b rest plain programs table shell forks opens_in opens_err opens_out =
      let (s, ss, σ1, performed, hold, table1, prepared, same_descriptors, same_events) =
        line-prepares k outside world l σ plain.unexpanded table in
      let c = σ1.current_command in
      let (filled, all_programs) = Hold-IsProgram (s ∷ ss) (l.first ∷ l.others) hold programs in
      let (opens1, opens2, opens3) = prepared-Opens c prepared opens_in opens_err opens_out in
      let w = world σ1.events in
      let (c', t', es, done, wired, back, empty) =
        command_execute-Wired k laws pids w.chdir w.getenv c s ss σ1.descriptors input out errors
          (subst (λ t. IsShell k t input out errors) (sym same_descriptors) shell) table1 filled
          all_programs opens1 opens2 opens3 in
      let events = (warning k c ++ es) ++ ending k c (pids (length ss)) in
      let σ2 : Session k = record σ1 {
        current_command = c';
        descriptors = t';
        events = σ1.events ++ events;
      } in
      let forked = ap (λ e. (world e).forks) same_events ∙ forks in
      let executed : command_execute k w.forks w.chdir w.getenv c σ1.descriptors
          ≡ returns c' t' events =
        ap (λ f. command_execute k f w.chdir w.getenv c σ1.descriptors) forked ∙ done in
      (
        s,
        ss,
        σ2,
        es,
        parse-line k outside world l b σ rest plain
            ∙ ap (λ p. go_on k p (λ σ. parse k outside world (line_start true) σ rest))
                (performed ∙ perform-executes k outside world σ1 c' t' events executed),
        hold,
        prepared-Wired c prepared s ss es wired,
        λ m. back m ∙ ap (λ t. k.at t m) same_descriptors,
        empty,
        ap (λ e. e ++ events) same_events
            ∙ ap (λ e. σ.events ++ e)
                (prepared-events c prepared es (pids (length ss))
                  ∙ ap
                      (λ n.
                        (line_warning k l σ.current_command ++ es)
                        ++ line_ending k l σ.current_command (pids n))
                      (Hold-length ss l.others hold.1)),
      )
