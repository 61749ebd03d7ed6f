-- ===== src/Shell/Session.antt =====
-- The shell of lab3-src as a whole: yyparse of shell.y asks yylex for one token after the other and
-- takes the actions of its productions, which fill the command table and execute it. A session is what
-- the globals current_command, current_simple_command, dir_array and max_entries hold, with the
-- descriptors of the process and what others have seen of it. The answers of the system depend on what
-- has happened before. `faults` is the use of what was not set or of a null pointer, or a write outside
-- of what was allocated; `out_of_fuel` has no counterpart in the code.
pub mod Lines
pub mod Ends
pub mod Prepared
pub mod Filled
pub mod Spelled
pub mod Line
pub mod Runs
mod Tests
use cs.Common.{
  not, ◌==◌, if◌then◌else◌, ◌>>=◌, ℕ, zero, suc, ◌+◌, Bool, false, List, [], ◌∷◌, ◌++◌, Option,
  none, some, length,
}
use cs.Shell.Table.{
  SimpleCommand, Command, simple_command_create, simple_command_insert_argument, command_create,
  command_insert_simple_command, command_clear,
}
use cs.Shell.Lexer.{Outside, Token, Lexed, token, eof, yylex}
use cs.Shell.Grammar.{
  Modifier, rewrites, appends_to, errors_to, appends_errors_to, takes_from, redirects_errors,
  Action, command_word, argument, command_and_args, iomodifier_opt, background_opt, executes,
  clears, recovers, yyerror, ParserState, line_start, at_eof, shift,
}
use cs.Shell.Expand.{Entries, no_entries, insert_arguments}
use cs.Shell.Execute.Descriptors.{Kernel}
use cs.Shell.Execute.{Event, prompts, Executed, returns, exits, command_execute}

-- What the system answers: the forks of a line, and the parameters of the expansions and of cd.
pub record World : Type 0 where
  pub forks : ℕ → Option ℕ
  pub chdir : List ℕ → Bool
  pub getenv : List ℕ → Option (List ℕ)
  pub regcomp : List ℕ → Option (List ℕ → Bool)
  pub readdir : List ℕ → Option (List (List ℕ))
  pub qsort : List (List ℕ) → List (List ℕ)
  pub home : Option (List ℕ)
  pub cwd : List ℕ
  pub pid : ℕ
  pub regexec : List ℕ → Bool

-- The actions of iomodifier_opt and background_opt.
unfoldable pub modify : Modifier → List ℕ → Command → Command
modify rewrites word c = record c { out_file = some word; outfile_counter = c.outfile_counter + 1 }
modify appends_to word c = record c {
  out_file = some word;
  is_appended = 1;
  outfile_counter = c.outfile_counter + 1;
}
modify errors_to word c = record c { err_file = some word }
modify appends_errors_to word c = record c { err_file = some word; is_appended = 1 }
modify takes_from word c = record c { in_file = some word }
modify redirects_errors word c = record c { err_file = some word }

abbrev pub is_filled : Command → Command
is_filled c = record c { is_cleared = 0 }

module _ (k : Kernel) where
  pub record Session : Type 0 where
    pub current_command : Command
    pub current_simple_command : Option SimpleCommand
    pub entries : Entries
    pub descriptors : k.Table
    pub events : List (Event k)

  pub data Progress : Type 0 where
    continues : Session → Progress
    leaves : (status : ℕ) → List (Event k) → Progress
    faults : Progress
    out_of_fuel : Progress

  -- One step behind another.
  abbrev pub go_on : Progress → (Session → Progress) → Progress
  go_on (continues σ) next = next σ
  go_on (leaves status events) next = leaves status events
  go_on faults next = faults
  go_on out_of_fuel next = out_of_fuel

  abbrev pub progress_of : Option Session → Progress
  progress_of none = faults
  progress_of (some σ) = continues σ

  abbrev pub after_execution : Session → Executed k → Progress
  after_execution σ (returns c t events) =
      continues (record σ { current_command = c; descriptors = t; events = σ.events ++ events })
  after_execution σ (exits status events) = leaves status (σ.events ++ events)
  after_execution σ _ = faults

  abbrev pub with_argument : Session → Entries × SimpleCommand → Option Session
  with_argument σ (e, s) = some (record σ { current_simple_command = some s; entries = e })

  abbrev pub argument_inserted : World → Session → List ℕ → Option Session
  argument_inserted w σ arg = σ.current_simple_command >>= λ s.
      insert_arguments w.regcomp w.readdir w.qsort w.home w.getenv w.cwd w.pid w.regexec
        σ.current_command.last_pid σ.current_command.last_return σ.entries s arg
      >>= with_argument σ

  -- The signal handler, between two actions of the parser.
  unfoldable pub ctrl_c : Session → Progress
  ctrl_c σ =
      let interrupted = progress_of (
        command_clear σ.current_command >>= λ c.
        some (record σ { current_command = c; events = σ.events ++ (prompts ∷ []) })) in
      if not (σ.current_command.is_cleared == 0) then interrupted else continues σ

  module _ (outside : Outside) (world : List (Event k) → World) where
    -- The action of a production.
    unfoldable pub perform : Action → Session → Progress
    perform (command_word word) σ = progress_of (
        simple_command_insert_argument simple_command_create word >>= λ s.
        some (record σ { current_simple_command = some s }))
    perform (argument word) σ = progress_of (argument_inserted (world σ.events) σ word)
    perform command_and_args σ = progress_of (
        σ.current_simple_command >>= λ s. command_insert_simple_command σ.current_command s >>= λ c.
        some (record σ { current_command = is_filled c }))
    perform (iomodifier_opt m word) σ =
        continues (record σ { current_command = modify m word σ.current_command })
    perform background_opt σ =
        continues (record σ { current_command = record σ.current_command { is_background = 1 } })
    perform executes σ =
        let w = world σ.events in
        after_execution σ
          (command_execute k w.forks w.chdir w.getenv σ.current_command σ.descriptors)
    perform clears σ = progress_of (
        command_clear σ.current_command >>= λ c.
        some (record σ { current_command = c; events = σ.events ++ (prompts ∷ []) }))
    perform recovers σ = continues σ
    perform yyerror σ = continues σ

    unfoldable pub perform_all : List Action → Session → Progress
    perform_all [] σ = continues σ
    perform_all (a ∷ actions) σ = go_on (perform a σ) (λ σ. perform_all actions σ)

    abbrev pub shifted :
        List Action × ParserState → Session → (ParserState → Session → Progress) → Progress
    shifted (actions, s) σ next = go_on (perform_all actions σ) (next s)

    abbrev pub on_token :
        Lexed → ParserState → Session → (List ℕ → ParserState → Session → Progress) → Progress
    on_token (token t rest) s σ next = shifted (shift s t) σ (next rest)
    on_token eof s σ next = perform_all (at_eof s) σ
    on_token Lexed.fault s σ next = faults
    on_token Lexed.out_of_fuel s σ next = out_of_fuel

    -- The parser at the bytes of an input, a token in each round.
    unfoldable pub parse_input : (fuel : ℕ) → ParserState → Session → (input : List ℕ) → Progress
    parse_input zero s σ input = out_of_fuel
    parse_input (suc fuel) s σ input =
        on_token (yylex outside input) s σ (λ rest s σ. parse_input fuel s σ rest)

    -- yyparse: a round for each byte is enough.
    abbrev pub parse : ParserState → Session → (input : List ℕ) → Progress
    parse s σ input = parse_input (length input + 1) s σ input

    -- main: the prompt, and the parser at the whole input.
    unfoldable pub shell_main : k.Table → (input : List ℕ) → Progress
    shell_main t input =
        let σ : Session = record {
          current_command = command_create;
          current_simple_command = none;
          entries = no_entries;
          descriptors = t;
          events = prompts ∷ [];
        } in
        parse (line_start false) σ input
