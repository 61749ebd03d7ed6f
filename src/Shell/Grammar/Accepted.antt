-- ===== src/Shell/Grammar/Accepted.antt =====
-- Which lines the parser of lab3-src/shell.y executes.
use cs.Common.{
  ℕ, ◌≡◌, refl, sym, ap, subst, ◌∙◌, Bool, true, false, List, [], ◌∷◌, ◌++◌, All, ◌↔◌, arith,
}
use cs.Shell.Lexer.{
  Token, word_token, newline_token, great_token, greatgreat_token, ampersand_token, greatamp_token,
  greatgreatamp_token, less_token, pipe_token, redir_token,
}
use cs.Shell.Grammar.{
  Modifier, rewrites, appends_to, errors_to, appends_errors_to, takes_from, redirects_errors,
  Action, command_word, argument, command_and_args, iomodifier_opt, background_opt, executes,
  clears, recovers, yyerror, ParserState, line_start, in_command, after_pipe, modifying,
  in_modifiers, after_ampersand, skipping, behind_modifiers, shift, yyparse, CommandAndArgs,
  SimpleLine,
}
use cs.Shell.Grammar.Lines.{
  words, mark, modifier_tokens, pipe_tokens, background_tokens, line_tokens, argument_actions,
  pipe_actions, modifier_actions, background_actions, line_actions, yyparse-line, line-append,
}

abbrev pub IsInLine : Token → Type 0
IsInLine newline_token = ⊥
IsInLine _ = Unit

-- The line is executed.
abbrev pub is_executed : List Action → Bool
is_executed [] = false
is_executed (executes ∷ actions) = true
is_executed (command_word w ∷ actions) = is_executed actions
is_executed (argument w ∷ actions) = is_executed actions
is_executed (command_and_args ∷ actions) = is_executed actions
is_executed (iomodifier_opt m w ∷ actions) = is_executed actions
is_executed (background_opt ∷ actions) = is_executed actions
is_executed (clears ∷ actions) = is_executed actions
is_executed (recovers ∷ actions) = is_executed actions
is_executed (yyerror ∷ actions) = is_executed actions

impossible : {A : Type 0} → false ≡ true → A
impossible h = let bad : ⊥ = ground (arith, h) in elim bad [ ]

-- What can end a line in each place.
abbrev EndsModifiers : List Token → Type 0
EndsModifiers ts =
    (ms : List (Modifier × List ℕ)) × (b : Bool) × (ts
      ≡ modifier_tokens ms (background_tokens b []))

abbrev EndsCommand : List Token → Type 0
EndsCommand ts =
    (ws : List (List ℕ)) × (cs : List CommandAndArgs) × (ms : List (Modifier × List ℕ)) × (b : Bool)
    × (ts ≡ words ws (pipe_tokens cs (modifier_tokens ms (background_tokens b []))))

abbrev Completes : ParserState → List Token → Type 0
Completes (line_start b) ts = (l : SimpleLine) × (ts ≡ line_tokens l [])
Completes in_command ts = EndsCommand ts
Completes after_pipe ts =
    (w : List ℕ) × (us : List Token) × (ts ≡ word_token w ∷ us) × EndsCommand us
Completes (modifying m) ts =
    (w : List ℕ) × (us : List Token) × (ts ≡ word_token w ∷ us) × EndsModifiers us
Completes in_modifiers ts = EndsModifiers ts
Completes after_ampersand ts = ts ≡ []
Completes skipping ts = ⊥

with_mark :
    (m : Modifier) (ts : List Token) → Completes (modifying m) ts → EndsModifiers (mark m ∷ ts)
with_mark m ts (w, us, e, (ms, b, f)) =
    ((m, w) ∷ ms, b, ap (λ l. mark m ∷ l) (e ∙ ap (λ l. word_token w ∷ l) f))

ended : (ts : List Token) → ts ≡ [] → EndsModifiers (ampersand_token ∷ ts)
ended ts e = ([], true, ap (λ l. ampersand_token ∷ l) e)

no_words : (ts : List Token) → EndsModifiers ts → EndsCommand ts
no_words ts (ms, b, e) = ([], [], ms, b, e)

with_word : (w : List ℕ) (ts : List Token) → EndsCommand ts → EndsCommand (word_token w ∷ ts)
with_word w ts (ws, cs, ms, b, e) = (w ∷ ws, cs, ms, b, ap (λ l. word_token w ∷ l) e)

with_pipe : (ts : List Token) → Completes after_pipe ts → EndsCommand (pipe_token ∷ ts)
with_pipe ts (w, us, e, (ws, cs, ms, b, f)) = (
  [],
  record { word = w; argument_list = ws } ∷ cs,
  ms,
  b,
  ap (λ l. pipe_token ∷ l) (e ∙ ap (λ l. word_token w ∷ l) f),
)

first_command :
    (w : List ℕ) (ts : List Token)
    → EndsCommand ts
    → Completes (line_start true) (word_token w ∷ ts)
first_command w ts (ws, cs, ms, b, e) = (
  record {
    first = record { word = w; argument_list = ws };
    others = cs;
    iomodifier_list = ms;
    is_background = b;
  },
  ap (λ l. word_token w ∷ l) e,
)

abbrev actions_of : ParserState → List Token → List Action
actions_of s ts = yyparse s (ts ++ (newline_token ∷ []))

-- A line that is skipped is not executed.
skipped : (ts : List Token) → All IsInLine ts → is_executed (actions_of skipping ts) ≡ false
unfolding yyparse shift
skipped [] h = refl
skipped (word_token w ∷ ts) h = skipped ts h.1
skipped (newline_token ∷ ts) h = elim h.0 [ ]
skipped (great_token ∷ ts) h = skipped ts h.1
skipped (greatgreat_token ∷ ts) h = skipped ts h.1
skipped (ampersand_token ∷ ts) h = skipped ts h.1
skipped (greatamp_token ∷ ts) h = skipped ts h.1
skipped (greatgreatamp_token ∷ ts) h = skipped ts h.1
skipped (less_token ∷ ts) h = skipped ts h.1
skipped (pipe_token ∷ ts) h = skipped ts h.1
skipped (redir_token ∷ ts) h = skipped ts h.1

refused :
    {A : Type 0} (ts : List Token)
    → All IsInLine ts
    → is_executed (actions_of skipping ts) ≡ true
    → A
refused ts h e = impossible (sym (skipped ts h) ∙ e)

-- A line that is executed goes on, wherever the parser is, in a way that the grammar has.
executed-Completes :
    (s : ParserState) (ts : List Token)
    → All IsInLine ts
    → is_executed (actions_of s ts) ≡ true
    → Completes s ts
unfolding yyparse shift behind_modifiers
executed-Completes (line_start b) [] h e = impossible e
executed-Completes (line_start b) (word_token w ∷ ts) h e =
    first_command w ts (executed-Completes in_command ts h.1 e)
executed-Completes (line_start b) (newline_token ∷ ts) h e = elim h.0 [ ]
executed-Completes (line_start b) (great_token ∷ ts) h e = refused ts h.1 e
executed-Completes (line_start b) (greatgreat_token ∷ ts) h e = refused ts h.1 e
executed-Completes (line_start b) (ampersand_token ∷ ts) h e = refused ts h.1 e
executed-Completes (line_start b) (greatamp_token ∷ ts) h e = refused ts h.1 e
executed-Completes (line_start b) (greatgreatamp_token ∷ ts) h e = refused ts h.1 e
executed-Completes (line_start b) (less_token ∷ ts) h e = refused ts h.1 e
executed-Completes (line_start b) (pipe_token ∷ ts) h e = refused ts h.1 e
executed-Completes (line_start b) (redir_token ∷ ts) h e = refused ts h.1 e
executed-Completes in_command [] h e = ([], [], [], false, refl)
executed-Completes in_command (word_token w ∷ ts) h e =
    with_word w ts (executed-Completes in_command ts h.1 e)
executed-Completes in_command (newline_token ∷ ts) h e = elim h.0 [ ]
executed-Completes in_command (great_token ∷ ts) h e =
    no_words (great_token ∷ ts)
      (with_mark rewrites ts (executed-Completes (modifying rewrites) ts h.1 e))
executed-Completes in_command (greatgreat_token ∷ ts) h e =
    no_words (greatgreat_token ∷ ts)
      (with_mark appends_to ts (executed-Completes (modifying appends_to) ts h.1 e))
executed-Completes in_command (ampersand_token ∷ ts) h e =
    no_words (ampersand_token ∷ ts) (ended ts (executed-Completes after_ampersand ts h.1 e))
executed-Completes in_command (greatamp_token ∷ ts) h e =
    no_words (greatamp_token ∷ ts)
      (with_mark errors_to ts (executed-Completes (modifying errors_to) ts h.1 e))
executed-Completes in_command (greatgreatamp_token ∷ ts) h e =
    no_words (greatgreatamp_token ∷ ts)
      (with_mark appends_errors_to ts (executed-Completes (modifying appends_errors_to) ts h.1 e))
executed-Completes in_command (less_token ∷ ts) h e =
    no_words (less_token ∷ ts)
      (with_mark takes_from ts (executed-Completes (modifying takes_from) ts h.1 e))
executed-Completes in_command (pipe_token ∷ ts) h e =
    with_pipe ts (executed-Completes after_pipe ts h.1 e)
executed-Completes in_command (redir_token ∷ ts) h e =
    no_words (redir_token ∷ ts)
      (with_mark redirects_errors ts (executed-Completes (modifying redirects_errors) ts h.1 e))
executed-Completes after_pipe [] h e = impossible e
executed-Completes after_pipe (word_token w ∷ ts) h e =
    (w, ts, refl, executed-Completes in_command ts h.1 e)
executed-Completes after_pipe (newline_token ∷ ts) h e = elim h.0 [ ]
executed-Completes after_pipe (great_token ∷ ts) h e = refused ts h.1 e
executed-Completes after_pipe (greatgreat_token ∷ ts) h e = refused ts h.1 e
executed-Completes after_pipe (ampersand_token ∷ ts) h e = refused ts h.1 e
executed-Completes after_pipe (greatamp_token ∷ ts) h e = refused ts h.1 e
executed-Completes after_pipe (greatgreatamp_token ∷ ts) h e = refused ts h.1 e
executed-Completes after_pipe (less_token ∷ ts) h e = refused ts h.1 e
executed-Completes after_pipe (pipe_token ∷ ts) h e = refused ts h.1 e
executed-Completes after_pipe (redir_token ∷ ts) h e = refused ts h.1 e
executed-Completes (modifying m) [] h e = impossible e
executed-Completes (modifying m) (word_token w ∷ ts) h e =
    (w, ts, refl, executed-Completes in_modifiers ts h.1 e)
executed-Completes (modifying m) (newline_token ∷ ts) h e = elim h.0 [ ]
executed-Completes (modifying m) (great_token ∷ ts) h e = refused ts h.1 e
executed-Completes (modifying m) (greatgreat_token ∷ ts) h e = refused ts h.1 e
executed-Completes (modifying m) (ampersand_token ∷ ts) h e = refused ts h.1 e
executed-Completes (modifying m) (greatamp_token ∷ ts) h e = refused ts h.1 e
executed-Completes (modifying m) (greatgreatamp_token ∷ ts) h e = refused ts h.1 e
executed-Completes (modifying m) (less_token ∷ ts) h e = refused ts h.1 e
executed-Completes (modifying m) (pipe_token ∷ ts) h e = refused ts h.1 e
executed-Completes (modifying m) (redir_token ∷ ts) h e = refused ts h.1 e
executed-Completes in_modifiers [] h e = ([], false, refl)
executed-Completes in_modifiers (word_token w ∷ ts) h e = refused ts h.1 e
executed-Completes in_modifiers (newline_token ∷ ts) h e = elim h.0 [ ]
executed-Completes in_modifiers (great_token ∷ ts) h e =
    with_mark rewrites ts (executed-Completes (modifying rewrites) ts h.1 e)
executed-Completes in_modifiers (greatgreat_token ∷ ts) h e =
    with_mark appends_to ts (executed-Completes (modifying appends_to) ts h.1 e)
executed-Completes in_modifiers (ampersand_token ∷ ts) h e =
    ended ts (executed-Completes after_ampersand ts h.1 e)
executed-Completes in_modifiers (greatamp_token ∷ ts) h e =
    with_mark errors_to ts (executed-Completes (modifying errors_to) ts h.1 e)
executed-Completes in_modifiers (greatgreatamp_token ∷ ts) h e =
    with_mark appends_errors_to ts (executed-Completes (modifying appends_errors_to) ts h.1 e)
executed-Completes in_modifiers (less_token ∷ ts) h e =
    with_mark takes_from ts (executed-Completes (modifying takes_from) ts h.1 e)
executed-Completes in_modifiers (pipe_token ∷ ts) h e = refused ts h.1 e
executed-Completes in_modifiers (redir_token ∷ ts) h e =
    with_mark redirects_errors ts (executed-Completes (modifying redirects_errors) ts h.1 e)
executed-Completes after_ampersand [] h e = refl
executed-Completes after_ampersand (word_token w ∷ ts) h e = refused ts h.1 e
executed-Completes after_ampersand (newline_token ∷ ts) h e = elim h.0 [ ]
executed-Completes after_ampersand (great_token ∷ ts) h e = refused ts h.1 e
executed-Completes after_ampersand (greatgreat_token ∷ ts) h e = refused ts h.1 e
executed-Completes after_ampersand (ampersand_token ∷ ts) h e = refused ts h.1 e
executed-Completes after_ampersand (greatamp_token ∷ ts) h e = refused ts h.1 e
executed-Completes after_ampersand (greatgreatamp_token ∷ ts) h e = refused ts h.1 e
executed-Completes after_ampersand (less_token ∷ ts) h e = refused ts h.1 e
executed-Completes after_ampersand (pipe_token ∷ ts) h e = refused ts h.1 e
executed-Completes after_ampersand (redir_token ∷ ts) h e = refused ts h.1 e
executed-Completes skipping [] h e = impossible e
executed-Completes skipping (word_token w ∷ ts) h e = refused ts h.1 e
executed-Completes skipping (newline_token ∷ ts) h e = elim h.0 [ ]
executed-Completes skipping (great_token ∷ ts) h e = refused ts h.1 e
executed-Completes skipping (greatgreat_token ∷ ts) h e = refused ts h.1 e
executed-Completes skipping (ampersand_token ∷ ts) h e = refused ts h.1 e
executed-Completes skipping (greatamp_token ∷ ts) h e = refused ts h.1 e
executed-Completes skipping (greatgreatamp_token ∷ ts) h e = refused ts h.1 e
executed-Completes skipping (less_token ∷ ts) h e = refused ts h.1 e
executed-Completes skipping (pipe_token ∷ ts) h e = refused ts h.1 e
executed-Completes skipping (redir_token ∷ ts) h e = refused ts h.1 e

-- The actions of a line come to its execution.
argument_actions-executed :
    (ws : List (List ℕ)) (actions : List Action)
    → is_executed actions ≡ true
    → is_executed (argument_actions ws actions) ≡ true
argument_actions-executed [] actions h = h
argument_actions-executed (w ∷ ws) actions h = argument_actions-executed ws actions h

modifier_actions-executed :
    (ms : List (Modifier × List ℕ)) (actions : List Action)
    → is_executed actions ≡ true
    → is_executed (modifier_actions ms actions) ≡ true
modifier_actions-executed [] actions h = h
modifier_actions-executed ((m, w) ∷ ms) actions h = modifier_actions-executed ms actions h

pipe_actions-executed :
    (cs : List CommandAndArgs) (actions : List Action)
    → is_executed actions ≡ true
    → is_executed (pipe_actions cs actions) ≡ true
pipe_actions-executed [] actions h = h
pipe_actions-executed (c ∷ cs) actions h =
    argument_actions-executed c.argument_list _ (pipe_actions-executed cs actions h)

background_actions-executed :
    (b : Bool) (actions : List Action)
    → is_executed (background_actions b (executes ∷ actions)) ≡ true
background_actions-executed true actions = refl
background_actions-executed false actions = refl

line_actions-executed :
    (l : SimpleLine) (actions : List Action) → is_executed (line_actions l actions) ≡ true
line_actions-executed l actions = argument_actions-executed l.first.argument_list _ (
    pipe_actions-executed l.others _ (
      modifier_actions-executed l.iomodifier_list _
        (background_actions-executed l.is_background actions)))

-- The tokens in front of a newline are executed where they are a line of the grammar, and there alone.
pub yyparse-executed :
    (b : Bool) (ts : List Token)
    → All IsInLine ts
    → (is_executed (yyparse (line_start b) (ts ++ (newline_token ∷ []))) ≡ true)
      ↔ ((l : SimpleLine) × (ts ≡ line_tokens l []))
yyparse-executed b ts h = (
  executed-Completes (line_start b) ts h,
  λ (l, e).
      subst (λ ts. is_executed (yyparse (line_start b) (ts ++ (newline_token ∷ []))) ≡ true) (sym e)
        (subst (λ ts. is_executed (yyparse (line_start b) ts) ≡ true)
          (sym (line-append l (newline_token ∷ [])))
          (subst (λ actions. is_executed actions ≡ true) (sym (yyparse-line b l []))
            (line_actions-executed l _))),
)
