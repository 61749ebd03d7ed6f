-- ===== src/Shell/Session/Filled.antt =====
-- The command table behind the actions of a line of lab3-src/shell.y whose words stand for themselves.
use mathlib.Core.List.{append_assoc, append-nil}
use cs.Common.{◌>>=◌, after_some, ℕ, ◌≡◌, refl, sym, ap, subst, ◌∙◌, List, [], ◌∷◌, ◌++◌, some, All}
use cs.Shell.Lexer.{Outside}
use cs.Shell.Table.{SimpleCommand, simple_command_create}
use cs.Shell.Filled.{
  IsFilled, IsTable, create-IsFilled, simple_command_insert_argument-IsFilled,
  command_insert_simple_command-IsTable,
}
use cs.Shell.Expand.Inserted.{IsUnexpanded, insert_arguments-IsFilled}
use cs.Shell.Grammar.{Action, command_word, argument, command_and_args, CommandAndArgs}
use cs.Shell.Grammar.Lines.{argument_actions, command_actions, pipe_actions}
use cs.Shell.Execute.Descriptors.{Kernel}
use cs.Shell.Execute.{Event}
use cs.Shell.Session.{
  World, Session, continues, go_on, progress_of, with_argument, is_filled, perform, perform_all,
}
use cs.Shell.Session.Prepared.{named_files, IsTable-same, insert-named_files}

-- The words of a simple command, and that its arguments are inserted as they are.
abbrev pub words_of : CommandAndArgs → List (List ℕ)
words_of c = c.word ∷ c.argument_list

abbrev pub AllUnexpanded : List CommandAndArgs → Type 0
AllUnexpanded = All (λ c. All IsUnexpanded c.argument_list)

-- The simple commands hold the words of these.
abbrev pub Hold : List SimpleCommand → List CommandAndArgs → Type 0
Hold [] [] = Unit
Hold (s ∷ ss) (c ∷ cs) = IsFilled s (words_of c) × Hold ss cs
Hold _ _ = ⊥

module _ (k : Kernel) where
  abbrev pub with_simple : Session k → SimpleCommand → Session k
  with_simple σ s = record σ { current_simple_command = some s }

  -- Sessions that differ in the simple commands alone.
  pub record Agrees (σ σ' : Session k) : Type 0 where
    pub files : named_files σ'.current_command ≡ named_files σ.current_command
    pub same_entries : σ'.entries ≡ σ.entries
    pub same_descriptors : σ'.descriptors ≡ σ.descriptors
    pub same_events : σ'.events ≡ σ.events

  module _ (outside : Outside) (world : List (Event k) → World) where
    argument-IsFilled :
        (σ : Session k) (s : SimpleCommand) (args : List (List ℕ)) (w : List ℕ)
        → IsFilled s args
        → IsUnexpanded w
        → (s' : SimpleCommand) × (perform k outside world (argument w) (with_simple σ s)
            ≡ continues (with_simple σ s'))
          × IsFilled s' (args ++ (w ∷ []))
    unfolding perform
    argument-IsFilled σ s args w h plain =
        let a = world σ.events in
        let (s', done, filled) =
          insert_arguments-IsFilled a.regcomp a.readdir a.qsort a.home a.getenv a.cwd a.pid
            a.regexec σ.current_command.last_pid σ.current_command.last_return σ.entries s args w h
            plain in
        (s', ap (λ m. progress_of k (m >>= with_argument k (with_simple σ s))) done, filled)

    arguments-IsFilled :
        (ws : List (List ℕ)) (actions : List Action) (σ : Session k) (s : SimpleCommand)
        (args : List (List ℕ))
        → IsFilled s args
        → All IsUnexpanded ws
        → (s' : SimpleCommand) × (perform_all k outside world
              (argument_actions ws actions)
              (with_simple σ s)
            ≡ perform_all k outside world actions (with_simple σ s'))
          × IsFilled s' (args ++ ws)
    unfolding perform_all
    arguments-IsFilled [] actions σ s args h plain =
        (s, refl, subst (IsFilled s) (sym (append-nil args)) h)
    arguments-IsFilled (w ∷ ws) actions σ s args h plain =
        let (s1, e1, h1) = argument-IsFilled σ s args w h plain.0 in
        let (s2, e2, h2) = arguments-IsFilled ws actions σ s1 (args ++ (w ∷ [])) h1 plain.1 in
        (
          s2,
          ap (λ p. go_on k p (λ σ. perform_all k outside world (argument_actions ws actions) σ)) e1
              ∙ e2,
          subst (IsFilled s2) (append_assoc args (w ∷ []) ws) h2,
        )

    command_word-IsFilled :
        (σ : Session k) (w : List ℕ)
        → (s : SimpleCommand) × (perform k outside world (command_word w) σ
            ≡ continues (with_simple σ s))
          × IsFilled s (w ∷ [])
    unfolding perform
    command_word-IsFilled σ w =
        let (s, done, filled, _) =
          simple_command_insert_argument-IsFilled simple_command_create [] w create-IsFilled in
        (s, ap (progress_of k) (after_some _ done refl), filled)

    command_and_args-IsTable :
        (σ : Session k) (s : SimpleCommand) (commands : List SimpleCommand)
        → IsTable σ.current_command commands
        → (σ' : Session k) × (perform k outside world command_and_args (with_simple σ s)
            ≡ continues σ')
          × IsTable σ'.current_command (commands ++ (s ∷ []))
          × Agrees σ σ'
    unfolding perform
    command_and_args-IsTable σ s commands h =
        let (c, done, table) =
          command_insert_simple_command-IsTable σ.current_command commands s h in
        (
          record (with_simple σ s) { current_command = is_filled c },
          ap (progress_of k) (after_some _ done refl),
          IsTable-same c (is_filled c) (commands ++ (s ∷ [])) refl table,
          record {
            files = insert-named_files σ.current_command c s done;
            same_entries = refl;
            same_descriptors = refl;
            same_events = refl;
          },
        )

    -- The actions of a simple command add it to the table.
    pub command-IsTable :
        (c : CommandAndArgs) (actions : List Action) (σ : Session k) (commands : List SimpleCommand)
        → All IsUnexpanded c.argument_list
        → IsTable σ.current_command commands
        → (s : SimpleCommand) × (σ' : Session k) × (perform_all k outside world
              (command_actions c actions)
              σ
            ≡ perform_all k outside world actions σ')
          × IsFilled s (words_of c)
          × IsTable σ'.current_command (commands ++ (s ∷ []))
          × Agrees σ σ'
    unfolding perform_all
    command-IsTable c actions σ commands plain h =
        let (s1, e1, h1) = command_word-IsFilled σ c.word in
        let (s2, e2, h2) =
          arguments-IsFilled c.argument_list (command_and_args ∷ actions) σ s1 (c.word ∷ []) h1
            plain in
        let (σ', e3, table, agrees) = command_and_args-IsTable σ s2 commands h in
        (
          s2,
          σ',
          ap
                (λ p. go_on k p (λ σ.
                  perform_all k outside world
                    (argument_actions c.argument_list (command_and_args ∷ actions)) σ))
                e1
              ∙ e2
              ∙ ap (λ p. go_on k p (λ σ. perform_all k outside world actions σ)) e3,
          h2,
          table,
          agrees,
        )

    -- The actions of a row of simple commands add them to the table.
    pub pipes-IsTable :
        (cs : List CommandAndArgs) (actions : List Action) (σ : Session k)
        (commands : List SimpleCommand)
        → AllUnexpanded cs
        → IsTable σ.current_command commands
        → (ss : List SimpleCommand) × (σ' : Session k) × (perform_all k outside world
              (pipe_actions cs actions)
              σ
            ≡ perform_all k outside world actions σ')
          × Hold ss cs
          × IsTable σ'.current_command (commands ++ ss)
          × Agrees σ σ'
    pipes-IsTable [] actions σ commands plain h = (
      [],
      σ,
      refl,
      tt,
      subst (IsTable σ.current_command) (sym (append-nil commands)) h,
      record { files = refl; same_entries = refl; same_descriptors = refl; same_events = refl },
    )
    pipes-IsTable (c ∷ cs) actions σ commands plain h =
        let (s, σ1, e1, filled, h1, a1) =
          command-IsTable c (pipe_actions cs actions) σ commands plain.0 h in
        let (ss, σ2, e2, hold, h2, a2) =
          pipes-IsTable cs actions σ1 (commands ++ (s ∷ [])) plain.1 h1 in
        (
          s ∷ ss,
          σ2,
          e1 ∙ e2,
          (filled, hold),
          subst (IsTable σ2.current_command) (append_assoc commands (s ∷ []) ss) h2,
          record {
            files = a2.files ∙ a1.files;
            same_entries = a2.same_entries ∙ a1.same_entries;
            same_descriptors = a2.same_descriptors ∙ a1.same_descriptors;
            same_events = a2.same_events ∙ a1.same_events;
          },
        )
