-- ===== src/Shell/Session/Spelled.antt =====
-- The bytes of a line for the shell of lab3-src, and its tokens.
use cs.Common.{ℕ, true, false, Bool, List, [], ◌∷◌, All}
use cs.Shell.Lexer.{Token}
use cs.Shell.Lexer.Words.{IsPlainWord}
use cs.Shell.Lexer.Tokens.{IsSpelled, written}
use cs.Shell.Grammar.{
  Modifier, rewrites, appends_to, errors_to, appends_errors_to, takes_from, redirects_errors,
  CommandAndArgs, SimpleLine,
}
use cs.Shell.Grammar.Lines.{
  mark, words, modifier_tokens, pipe_tokens, background_tokens, line_tokens,
}
use cs.Shell.Session.Filled.{AllUnexpanded}

-- A line whose words are plain, with arguments that stand for themselves.
abbrev pub IsPlainCommand : CommandAndArgs → Type 0
IsPlainCommand c = IsPlainWord c.word × All IsPlainWord c.argument_list

pub record IsPlainLine (l : SimpleLine) : Type 0 where
  pub commands : All IsPlainCommand (l.first ∷ l.others)
  pub files : All (λ (m : Modifier × List ℕ). IsPlainWord m.1) l.iomodifier_list
  pub unexpanded : AllUnexpanded (l.first ∷ l.others)

-- The bytes of a line, with single spaces between its tokens, and its newline.
abbrev pub line_text : SimpleLine → (rest : List ℕ) → List ℕ
line_text l rest = written (line_tokens l []) rest

mark-IsSpelled : (m : Modifier) → IsSpelled (mark m)
mark-IsSpelled rewrites = tt
mark-IsSpelled appends_to = tt
mark-IsSpelled errors_to = tt
mark-IsSpelled appends_errors_to = tt
mark-IsSpelled takes_from = tt
mark-IsSpelled redirects_errors = tt

words-IsSpelled :
    (ws : List (List ℕ)) (ts : List Token)
    → All IsPlainWord ws
    → All IsSpelled ts
    → All IsSpelled (words ws ts)
words-IsSpelled [] ts h more = more
words-IsSpelled (w ∷ ws) ts h more = (h.0, words-IsSpelled ws ts h.1 more)

modifiers-IsSpelled :
    (ms : List (Modifier × List ℕ)) (ts : List Token)
    → All (λ (m : Modifier × List ℕ). IsPlainWord m.1) ms
    → All IsSpelled ts
    → All IsSpelled (modifier_tokens ms ts)
modifiers-IsSpelled [] ts h more = more
modifiers-IsSpelled ((m, w) ∷ ms) ts h more =
    (mark-IsSpelled m, (h.0, modifiers-IsSpelled ms ts h.1 more))

background-IsSpelled : (b : Bool) → All IsSpelled (background_tokens b [])
background-IsSpelled true = (tt, tt)
background-IsSpelled false = tt

pipes-IsSpelled :
    (cs : List CommandAndArgs) (ts : List Token)
    → All IsPlainCommand cs
    → All IsSpelled ts
    → All IsSpelled (pipe_tokens cs ts)
pipes-IsSpelled [] ts h more = more
pipes-IsSpelled (c ∷ cs) ts h more =
    (tt, (h.0.0, words-IsSpelled c.argument_list _ h.0.1 (pipes-IsSpelled cs ts h.1 more)))

pub line-IsSpelled : (l : SimpleLine) → IsPlainLine l → All IsSpelled (line_tokens l [])
line-IsSpelled l h = (
  h.commands.0.0,
  words-IsSpelled l.first.argument_list _ h.commands.0.1 (
      pipes-IsSpelled l.others _ h.commands.1
        (modifiers-IsSpelled l.iomodifier_list _ h.files (background-IsSpelled l.is_background))),
)
