-- ===== src/Shell/Grammar/Lines.antt =====
-- What the grammar of lab3-src/shell.y makes of its lines.
use cs.Common.{ℕ, ◌≡◌, refl, ap, ◌∙◌, Bool, true, false, List, [], ◌∷◌, ◌++◌}
use cs.Shell.Lexer.{
  Token, word_token, newline_token, great_token, greatgreat_token, ampersand_token, greatamp_token,
  greatgreatamp_token, less_token, pipe_token, redir_token,
}
use cs.Shell.Grammar.{
  Modifier, rewrites, appends_to, errors_to, appends_errors_to, takes_from, redirects_errors,
  Action, command_word, argument, command_and_args, iomodifier_opt, background_opt, executes,
  line_start, in_command, in_modifiers, behind_modifiers, shift, yyparse, CommandAndArgs,
  SimpleLine,
}

-- The tokens of a line, from its end on.
abbrev pub words : List (List ℕ) → List Token → List Token
words [] ts = ts
words (w ∷ ws) ts = word_token w ∷ words ws ts

abbrev pub mark : Modifier → Token
mark rewrites = great_token
mark appends_to = greatgreat_token
mark errors_to = greatamp_token
mark appends_errors_to = greatgreatamp_token
mark takes_from = less_token
mark redirects_errors = redir_token

abbrev pub modifier_tokens : List (Modifier × List ℕ) → List Token → List Token
modifier_tokens [] ts = ts
modifier_tokens ((m, w) ∷ ms) ts = mark m ∷ word_token w ∷ modifier_tokens ms ts

abbrev pub pipe_tokens : List CommandAndArgs → List Token → List Token
pipe_tokens [] ts = ts
pipe_tokens (c ∷ cs) ts = pipe_token ∷ word_token c.word ∷ words c.argument_list (pipe_tokens cs ts)

abbrev pub background_tokens : Bool → List Token → List Token
background_tokens true ts = ampersand_token ∷ ts
background_tokens false ts = ts

-- In front of the NEWLINE.
abbrev pub line_tokens : SimpleLine → List Token → List Token
line_tokens l ts =
    word_token l.first.word
    ∷ words l.first.argument_list (
        pipe_tokens l.others
          (modifier_tokens l.iomodifier_list (background_tokens l.is_background ts)))

-- The actions of a line, in their order.
abbrev pub argument_actions : List (List ℕ) → List Action → List Action
argument_actions [] actions = actions
argument_actions (w ∷ ws) actions = argument w ∷ argument_actions ws actions

abbrev pub command_actions : CommandAndArgs → List Action → List Action
command_actions c actions =
    command_word c.word ∷ argument_actions c.argument_list (command_and_args ∷ actions)

abbrev pub pipe_actions : List CommandAndArgs → List Action → List Action
pipe_actions [] actions = actions
pipe_actions (c ∷ cs) actions = command_actions c (pipe_actions cs actions)

abbrev pub modifier_actions : List (Modifier × List ℕ) → List Action → List Action
modifier_actions [] actions = actions
modifier_actions ((m, w) ∷ ms) actions = iomodifier_opt m w ∷ modifier_actions ms actions

abbrev pub background_actions : Bool → List Action → List Action
background_actions true actions = background_opt ∷ actions
background_actions false actions = actions

abbrev pub line_actions : SimpleLine → List Action → List Action
line_actions l actions = command_actions l.first (
    pipe_actions l.others (
      modifier_actions l.iomodifier_list (background_actions l.is_background (executes ∷ actions))))

shift-mark :
    (m : Modifier) (w : List ℕ) (rest : List Token)
    → (yyparse in_modifiers (mark m ∷ word_token w ∷ rest)
        ≡ iomodifier_opt m w ∷ yyparse in_modifiers rest)
      × (yyparse in_command (mark m ∷ word_token w ∷ rest)
          ≡ command_and_args ∷ iomodifier_opt m w ∷ yyparse in_modifiers rest)
unfolding yyparse shift behind_modifiers
shift-mark rewrites w rest = (refl, refl)
shift-mark appends_to w rest = (refl, refl)
shift-mark errors_to w rest = (refl, refl)
shift-mark appends_errors_to w rest = (refl, refl)
shift-mark takes_from w rest = (refl, refl)
shift-mark redirects_errors w rest = (refl, refl)

yyparse-modifiers :
    (ms : List (Modifier × List ℕ)) (b : Bool) (rest : List Token)
    → yyparse in_modifiers (modifier_tokens ms (background_tokens b (newline_token ∷ rest)))
      ≡ modifier_actions ms (background_actions b (executes ∷ yyparse (line_start true) rest))
unfolding yyparse shift behind_modifiers
yyparse-modifiers [] true rest = refl
yyparse-modifiers [] false rest = refl
yyparse-modifiers ((m, w) ∷ ms) b rest =
    (shift-mark m w (modifier_tokens ms (background_tokens b (newline_token ∷ rest)))).0
    ∙ ap (λ l. iomodifier_opt m w ∷ l) (yyparse-modifiers ms b rest)

yyparse-words :
    (ws : List (List ℕ)) (ts : List Token)
    → yyparse in_command (words ws ts) ≡ argument_actions ws (yyparse in_command ts)
unfolding yyparse shift
yyparse-words [] ts = refl
yyparse-words (w ∷ ws) ts = ap (λ l. argument w ∷ l) (yyparse-words ws ts)

yyparse-pipes :
    (cs : List CommandAndArgs) (ms : List (Modifier × List ℕ)) (b : Bool) (rest : List Token)
    → yyparse in_command
        (pipe_tokens cs (modifier_tokens ms (background_tokens b (newline_token ∷ rest))))
      ≡ command_and_args
        ∷ pipe_actions cs
            (modifier_actions ms (background_actions b (executes ∷ yyparse (line_start true) rest)))
unfolding yyparse shift behind_modifiers
yyparse-pipes [] [] true rest = refl
yyparse-pipes [] [] false rest = refl
yyparse-pipes [] ((m, w) ∷ ms) b rest =
    (shift-mark m w (modifier_tokens ms (background_tokens b (newline_token ∷ rest)))).1
    ∙ ap (λ l. command_and_args ∷ iomodifier_opt m w ∷ l) (yyparse-modifiers ms b rest)
yyparse-pipes (c ∷ cs) ms b rest =
    let ts = pipe_tokens cs (modifier_tokens ms (background_tokens b (newline_token ∷ rest))) in
    ap (λ l. command_and_args ∷ command_word c.word ∷ l)
      (yyparse-words c.argument_list ts
        ∙ ap (argument_actions c.argument_list) (yyparse-pipes cs ms b rest))

-- The tokens of a line lead to its actions, in their order, and then on with the next line.
pub yyparse-line :
    (some_line : Bool) (l : SimpleLine) (rest : List Token)
    → yyparse (line_start some_line) (line_tokens l (newline_token ∷ rest))
      ≡ line_actions l (yyparse (line_start true) rest)
unfolding yyparse shift
yyparse-line some_line l rest =
    let ts = pipe_tokens l.others (
      modifier_tokens l.iomodifier_list
        (background_tokens l.is_background (newline_token ∷ rest))) in
    ap (λ a. command_word l.first.word ∷ a)
      (yyparse-words l.first.argument_list ts
        ∙ ap (argument_actions l.first.argument_list)
            (yyparse-pipes l.others l.iomodifier_list l.is_background rest))

-- A newline behind the tokens of a line.
words-append : (ws : List (List ℕ)) (ts us : List Token) → words ws ts ++ us ≡ words ws (ts ++ us)
words-append [] ts us = refl
words-append (w ∷ ws) ts us = ap (λ l. word_token w ∷ l) (words-append ws ts us)

modifiers-append :
    (ms : List (Modifier × List ℕ)) (ts us : List Token)
    → modifier_tokens ms ts ++ us ≡ modifier_tokens ms (ts ++ us)
modifiers-append [] ts us = refl
modifiers-append ((m, w) ∷ ms) ts us =
    ap (λ l. mark m ∷ word_token w ∷ l) (modifiers-append ms ts us)

background-append :
    (b : Bool) (us : List Token) → background_tokens b [] ++ us ≡ background_tokens b us
background-append true us = refl
background-append false us = refl

pipes-append :
    (cs : List CommandAndArgs) (ts us : List Token)
    → pipe_tokens cs ts ++ us ≡ pipe_tokens cs (ts ++ us)
pipes-append [] ts us = refl
pipes-append (c ∷ cs) ts us =
    ap (λ l. pipe_token ∷ word_token c.word ∷ l)
      (words-append c.argument_list (pipe_tokens cs ts) us
        ∙ ap (words c.argument_list) (pipes-append cs ts us))

pub line-append : (l : SimpleLine) (us : List Token) → line_tokens l [] ++ us ≡ line_tokens l us
line-append l us =
    ap (λ ts. word_token l.first.word ∷ ts)
      (words-append l.first.argument_list _ us
        ∙ ap (words l.first.argument_list) (
            pipes-append l.others _ us
            ∙ ap (pipe_tokens l.others) (
                modifiers-append l.iomodifier_list _ us
                ∙ ap (modifier_tokens l.iomodifier_list) (background-append l.is_background us))))
