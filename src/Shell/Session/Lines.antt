-- ===== src/Shell/Session/Lines.antt =====
-- What the shell of lab3-src does with a line of its input: the actions of its tokens.
use mathlib.Core.List.{append-nil}
use cs.Common.{ℕ, suc, true, ◌≡◌, refl, sym, ap, ◌∙◌, List, [], ◌∷◌, ◌++◌, All}
use cs.Shell.Lexer.{Outside, Token, newline_token, token, yylex}
use cs.Shell.Lexer.Tokens.{IsSpelled, behind, written, yylex-written, yylex-behind, yylex-newline}
use cs.Shell.Grammar.{
  Action, ParserState, line_start, in_command, after_pipe, modifying, in_modifiers, after_ampersand,
  skipping, behind_modifiers, at_eof, shift, yyparse,
}
use cs.Shell.Execute.Descriptors.{Kernel}
use cs.Shell.Execute.{Event}
use cs.Shell.Session.{
  World, Session, Progress, continues, leaves, faults, out_of_fuel, go_on, perform, perform_all,
  on_token, parse_input,
}

-- A newline ends a line wherever the parser is.
pub shift-newline : (s : ParserState) → (shift s newline_token).1 ≡ line_start true
unfolding shift behind_modifiers
shift-newline (line_start b) = refl
shift-newline in_command = refl
shift-newline after_pipe = refl
shift-newline (modifying m) = refl
shift-newline in_modifiers = refl
shift-newline after_ampersand = refl
shift-newline skipping = refl

-- A round for each token, and one for the newline.
abbrev pub rounds : List Token → (fuel : ℕ) → ℕ
rounds [] fuel = suc fuel
rounds (t ∷ ts) fuel = suc (rounds ts fuel)

module _ (k : Kernel) where
  go_on-go_on :
      (p : Progress k) (f g : Session k → Progress k)
      → go_on k (go_on k p f) g ≡ go_on k p (λ σ. go_on k (f σ) g)
  go_on-go_on (continues σ) f g = refl
  go_on-go_on (leaves status events) f g = refl
  go_on-go_on faults f g = refl
  go_on-go_on out_of_fuel f g = refl

  -- What follows agrees if it agrees on every session.
  pub go_on-same :
      (p : Progress k) (f g : Session k → Progress k)
      → ((σ : Session k) → f σ ≡ g σ)
      → go_on k p f ≡ go_on k p g
  go_on-same (continues σ) f g h = h σ
  go_on-same (leaves status events) f g h = refl
  go_on-same faults f g h = refl
  go_on-same out_of_fuel f g h = refl

  module _ (outside : Outside) (world : List (Event k) → World) where
    pub perform_all-append :
        (actions more : List Action) (σ : Session k) (next : Session k → Progress k)
        → go_on k (perform_all k outside world (actions ++ more) σ) next
          ≡ go_on k
              (perform_all k outside world actions σ)
              (λ σ. go_on k (perform_all k outside world more σ) next)
    unfolding perform_all
    perform_all-append [] more σ next = refl
    perform_all-append (a ∷ actions) more σ next =
        go_on-go_on (perform k outside world a σ)
          (λ σ. perform_all k outside world (actions ++ more) σ) next
        ∙ go_on-same (perform k outside world a σ) _ _ (λ σ. perform_all-append actions more σ next)
        ∙ sym (
            go_on-go_on (perform k outside world a σ) (λ σ. perform_all k outside world actions σ)
              (λ σ. go_on k (perform_all k outside world more σ) next))

    abbrev follows : (fuel : ℕ) → (rest : List ℕ) → ParserState → Session k → Progress k
    follows fuel rest s σ = parse_input k outside world fuel s σ rest

    -- A token whose actions come in front of those of other tokens.
    on-token :
        (fuel : ℕ) (s : ParserState) (σ : Session k) (t : Token) (input rest : List ℕ)
        → yylex outside input ≡ token t rest
        → parse_input k outside world (suc fuel) s σ input
          ≡ go_on k (perform_all k outside world (shift s t).0 σ) (follows fuel rest (shift s t).1)
    unfolding parse_input
    on-token fuel s σ t input rest h =
        ap (λ r. on_token k outside world r s σ (λ rest s σ. follows fuel rest s σ)) h

    parse_input-newline :
        (fuel : ℕ) (s : ParserState) (σ : Session k) (rest : List ℕ)
        → parse_input k outside world (suc fuel) s σ (10 ∷ rest)
          ≡ go_on k
              (perform_all k outside world (yyparse s (newline_token ∷ [])) σ)
              (follows fuel rest (line_start true))
    unfolding yyparse
    parse_input-newline fuel s σ rest =
        on-token fuel s σ newline_token (10 ∷ rest) rest (yylex-newline outside rest)
        ∙ ap
            (λ s'.
              go_on k (perform_all k outside world (shift s newline_token).0 σ)
                (follows fuel rest s'))
            (shift-newline s)
        ∙ ap
            (λ actions.
              go_on k (perform_all k outside world actions σ) (follows fuel rest (line_start true)))
            (sym (append-nil (shift s newline_token).0)
              ∙ ap (λ s'. (shift s newline_token).0 ++ at_eof s') (sym (shift-newline s)))

    -- A line of tokens behind the first one: the parser takes its actions and goes on behind its newline.
    parse_input-behind :
        (ts : List Token) (fuel : ℕ) (s : ParserState) (σ : Session k) (rest : List ℕ)
        → All IsSpelled ts
        → parse_input k outside world (rounds ts fuel) s σ (behind ts rest)
          ≡ go_on k
              (perform_all k outside world (yyparse s (ts ++ (newline_token ∷ []))) σ)
              (follows fuel rest (line_start true))
    unfolding yyparse
    parse_input-behind [] fuel s σ rest h = parse_input-newline fuel s σ rest
    parse_input-behind (t ∷ ts) fuel s σ rest h =
        on-token (rounds ts fuel) s σ t (behind (t ∷ ts) rest) (behind ts rest)
          (yylex-behind outside t ts rest h.0)
        ∙ go_on-same (perform_all k outside world (shift s t).0 σ) _ _
            (λ σ. parse_input-behind ts fuel (shift s t).1 σ rest h.1)
        ∙ sym (
            perform_all-append (shift s t).0 (yyparse (shift s t).1 (ts ++ (newline_token ∷ []))) σ
              (follows fuel rest (line_start true)))

    -- A line of tokens with single spaces: the parser takes the actions that they lead to and goes on
    -- behind its newline.
    pub parse_input-written :
        (t : Token) (ts : List Token) (fuel : ℕ) (s : ParserState) (σ : Session k) (rest : List ℕ)
        → All IsSpelled (t ∷ ts)
        → parse_input k outside world (rounds (t ∷ ts) fuel) s σ (written (t ∷ ts) rest)
          ≡ go_on k
              (perform_all k outside world (yyparse s ((t ∷ ts) ++ (newline_token ∷ []))) σ)
              (follows fuel rest (line_start true))
    unfolding yyparse
    parse_input-written t ts fuel s σ rest h =
        on-token (rounds ts fuel) s σ t (written (t ∷ ts) rest) (behind ts rest)
          (yylex-written outside t ts rest h.0)
        ∙ go_on-same (perform_all k outside world (shift s t).0 σ) _ _
            (λ σ. parse_input-behind ts fuel (shift s t).1 σ rest h.1)
        ∙ sym (
            perform_all-append (shift s t).0 (yyparse (shift s t).1 (ts ++ (newline_token ∷ []))) σ
              (follows fuel rest (line_start true)))
