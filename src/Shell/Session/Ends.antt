-- ===== src/Shell/Session/Ends.antt =====
-- That the parser of lab3-src comes to the end of its input: a round for each byte is enough.
use cs.Common.{
  ℕ, zero, suc, false, ◌+◌, ◌<◌, ◌≡◌, refl, List, [], ◌∷◌, length, Option, none, some, arith,
}
use cs.Shell.Lexer.{Outside, Lexed, token, eof, yylex}
use cs.Shell.Lexer.Ends.{IsEnded, yylex-IsEnded}
use cs.Shell.Grammar.{
  Action, command_word, argument, command_and_args, iomodifier_opt, background_opt, executes,
  clears, recovers, yyerror, ParserState, line_start, at_eof, shift,
}
use cs.Shell.Execute.Descriptors.{Kernel}
use cs.Shell.Execute.{Event, Executed, returns, exits}
use cs.Shell.Session.{
  World, Session, Progress, continues, leaves, faults, out_of_fuel, go_on, progress_of,
  after_execution, perform, perform_all, on_token, parse_input, shell_main,
}
use cs.Shell.Session.Lines.{go_on-same}

module _ (k : Kernel) where
  abbrev pub IsOver : Progress k → Type 0
  IsOver out_of_fuel = ⊥
  IsOver _ = Unit

  go_on-IsOver :
      (p : Progress k) (f : Session k → Progress k)
      → IsOver p
      → ((σ : Session k) → IsOver (f σ))
      → IsOver (go_on k p f)
  go_on-IsOver (continues σ) f h next = next σ
  go_on-IsOver (leaves status events) f h next = tt
  go_on-IsOver faults f h next = tt
  go_on-IsOver out_of_fuel f h next = h

  progress_of-IsOver : (m : Option (Session k)) → IsOver (progress_of k m)
  progress_of-IsOver none = tt
  progress_of-IsOver (some σ) = tt

  after_execution-IsOver : (σ : Session k) (r : Executed k) → IsOver (after_execution k σ r)
  after_execution-IsOver σ (returns c t events) = tt
  after_execution-IsOver σ (exits status events) = tt
  after_execution-IsOver σ Executed.fault = tt

  module _ (outside : Outside) (world : List (Event k) → World) where
    perform-IsOver : (a : Action) (σ : Session k) → IsOver (perform k outside world a σ)
    unfolding perform
    perform-IsOver (command_word word) σ = progress_of-IsOver _
    perform-IsOver (argument word) σ = progress_of-IsOver _
    perform-IsOver command_and_args σ = progress_of-IsOver _
    perform-IsOver (iomodifier_opt m word) σ = tt
    perform-IsOver background_opt σ = tt
    perform-IsOver executes σ = after_execution-IsOver σ _
    perform-IsOver clears σ = progress_of-IsOver _
    perform-IsOver recovers σ = tt
    perform-IsOver yyerror σ = tt

    perform_all-IsOver :
        (actions : List Action) (σ : Session k) → IsOver (perform_all k outside world actions σ)
    unfolding perform_all
    perform_all-IsOver [] σ = tt
    perform_all-IsOver (a ∷ actions) σ =
        go_on-IsOver (perform k outside world a σ) _ (perform-IsOver a σ)
          (λ σ. perform_all-IsOver actions σ)

    -- A round of the parser, where the rounds behind it agree or are over.
    on_token-IsOver :
        (r : Lexed) (n : ℕ) (s : ParserState) (σ : Session k)
        (next : List ℕ → ParserState → Session k → Progress k)
        → IsEnded n r
        → ((rest : List ℕ)
            → length rest < n
            → (s : ParserState) (σ : Session k) → IsOver (next rest s σ))
        → IsOver (on_token k outside world r s σ next)
    on_token-IsOver (token t rest) n s σ next ended h =
        go_on-IsOver (perform_all k outside world (shift s t).0 σ) _
          (perform_all-IsOver (shift s t).0 σ) (λ σ. h rest ended (shift s t).1 σ)
    on_token-IsOver eof n s σ next ended h = perform_all-IsOver (at_eof s) σ
    on_token-IsOver Lexed.fault n s σ next ended h = tt
    on_token-IsOver Lexed.out_of_fuel n s σ next ended h = elim ended [ ]

    pub parse_input-IsOver :
        (fuel : ℕ) (s : ParserState) (σ : Session k) (input : List ℕ)
        → length input < fuel
        → IsOver (parse_input k outside world fuel s σ input)
    unfolding parse_input
    parse_input-IsOver zero s σ input h = omega (arith, h)
    parse_input-IsOver (suc fuel) s σ input h =
        on_token-IsOver (yylex outside input) (length input) s σ _ (yylex-IsEnded outside input)
          (λ rest lt s σ. parse_input-IsOver fuel s σ rest (omega arith))

    on_token-same :
        (r : Lexed) (n : ℕ) (s : ParserState) (σ : Session k)
        (next next' : List ℕ → ParserState → Session k → Progress k)
        → IsEnded n r
        → ((rest : List ℕ)
            → length rest < n
            → (s : ParserState) (σ : Session k) → next rest s σ ≡ next' rest s σ)
        → on_token k outside world r s σ next ≡ on_token k outside world r s σ next'
    on_token-same (token t rest) n s σ next next' ended h =
        go_on-same k (perform_all k outside world (shift s t).0 σ) _ _
          (λ σ. h rest ended (shift s t).1 σ)
    on_token-same eof n s σ next next' ended h = refl
    on_token-same Lexed.fault n s σ next next' ended h = refl
    on_token-same Lexed.out_of_fuel n s σ next next' ended h = elim ended [ ]

    -- More rounds than bytes make no difference.
    pub parse_input-same :
        (fuel fuel' : ℕ) (s : ParserState) (σ : Session k) (input : List ℕ)
        → length input < fuel
        → length input < fuel'
        → parse_input k outside world fuel s σ input ≡ parse_input k outside world fuel' s σ input
    unfolding parse_input
    parse_input-same zero fuel' s σ input h h' = let low : ⊥ = omega (arith, h) in elim low [ ]
    parse_input-same (suc fuel) zero s σ input h h' =
        let low : ⊥ = omega (arith, h') in elim low [ ]
    parse_input-same (suc fuel) (suc fuel') s σ input h h' =
        on_token-same (yylex outside input) (length input) s σ _ _ (yylex-IsEnded outside input)
          (λ rest lt s σ. parse_input-same fuel fuel' s σ rest (omega arith) (omega arith))

    -- The shell comes to an end of every input: the parser gives up or returns at the end of it, the
    -- shell leaves, or it faults.
    pub shell_main-IsOver :
        (t : k.Table) (input : List ℕ) → IsOver (shell_main k outside world t input)
    unfolding shell_main
    shell_main-IsOver t input =
        parse_input-IsOver (length input + 1) (line_start false) _ input (omega arith)
