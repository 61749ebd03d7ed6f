-- ===== src/Shell/Lexer.antt =====
-- The lexer of lab3-src/shell.l: the rule with the longest match, the first one of these, is acted on.
-- `fault` is a write past the end of what was allocated; `out_of_fuel` has no counterpart in the code.
pub mod Words
pub mod Tokens
pub mod Ends
use cs.Common.{
  ◌>>=◌, c_string, ℕ, zero, suc, ◌+◌, ◌-◌, Bool, true, false, not, ◌&&◌, ◌||◌, List, [], ◌∷◌, ◌++◌,
  Option, none, some, length, take, drop, codes, ltb, leb, ◌==◌, if◌then◌else◌,
}
use cs.Server.Buffer.{Buffer, append}

-- NOTOKEN and NUMBER are never returned.
pub data Token : Type 0 where
  word_token : (string_val : List ℕ) → Token
  newline_token great_token greatgreat_token ampersand_token greatamp_token greatgreatamp_token
        less_token pipe_token redir_token :
      Token

abbrev pub is_blank : ℕ → Bool
is_blank c = (c == 32) || (c == 9)

-- [ \t\n], and [ \t\n|><&].
abbrev pub is_space : ℕ → Bool
is_space c = (c == 32) || (c == 9) || (c == 10)

abbrev pub ends_word : ℕ → Bool
ends_word c = is_space c || (c == 124) || (c == 62) || (c == 60) || (c == 38)

-- The longest run of bytes that pass a test.
unfoldable pub span : (ℕ → Bool) → List ℕ → ℕ
span test [] = 0
span test (c ∷ cs) = let rest = span test cs in if test c then suc rest else 0

abbrev pub is_prefix : List ℕ → List ℕ → Bool
is_prefix [] input = true
is_prefix (c ∷ text) [] = false
is_prefix (c ∷ text) (d ∷ input) = (c == d) && is_prefix text input

-- A literal text.
unfoldable pub literal : List ℕ → List ℕ → ℕ
literal text input = if is_prefix text input then length text else 0

-- Behind an opening mark: a run of bytes and the closing mark.
abbrev pub closed : (mark : ℕ) → (n : ℕ) → List ℕ → ℕ
closed mark n [] = 0
closed mark n (c ∷ cs) = if c == mark then n + 2 else 0

unfoldable pub enclosed : (mark : ℕ) → (ℕ → Bool) → List ℕ → ℕ
enclosed mark test [] = 0
enclosed mark test (c ∷ cs) =
    if c == mark then closed mark (span test cs) (drop (span test cs) cs) else 0

-- (\\[^\s])[^ \t\n]*, where \s stands for an s, behind its backslash; and with [^ \t\n]* in front.
unfoldable pub escaped : List ℕ → ℕ
escaped [] = 0
escaped (d ∷ ds) = if d == 115 then 0 else span (λ c. not (is_space c)) ds + 2

abbrev pub larger : ℕ → ℕ → ℕ
larger m n = if ltb m n then n else m

abbrev pub one_longer : ℕ → ℕ
one_longer zero = 0
one_longer (suc n) = suc (suc n)

unfoldable pub slashed_length : List ℕ → ℕ
slashed_length [] = 0
slashed_length (c ∷ cs) =
    let further = one_longer (slashed_length cs) in
    larger (if c == 92 then escaped cs else 0) (if is_space c then 0 else further)

-- The rules, in their order.
pub data Rule : Type 0 where
  newline blanks great great_great ampersand great_amp amp_less great_great_amp : Rule
  amp_great_great less pipe redir_join redir quoted plain slashed subshell : Rule

abbrev pub rules : List Rule
rules =
    newline ∷ blanks ∷ great ∷ great_great ∷ ampersand ∷ great_amp ∷ amp_less ∷ great_great_amp
    ∷ amp_great_great ∷ less ∷ pipe ∷ redir_join ∷ redir ∷ quoted ∷ plain ∷ slashed ∷ subshell ∷ []

-- The length of a rule's longest match; 0 where there is none.
unfoldable pub matched : Rule → List ℕ → ℕ
matched newline = literal (10 ∷ [])
matched blanks = span is_blank
matched great = literal (codes ">")
matched great_great = literal (codes ">>")
matched ampersand = literal (codes "&")
matched great_amp = literal (codes ">&")
matched amp_less = literal (codes "&<")
matched great_great_amp = literal (codes ">>&")
matched amp_great_great = literal (codes "&>>")
matched less = literal (codes "<")
matched pipe = literal (codes "|")
matched redir_join = literal (codes "2>&1")
matched redir = literal (codes "2>")
matched quoted = enclosed 34 (λ c. not ((c == 9) || (c == 10) || (c == 34)))
matched plain = span (λ c. not (ends_word c))
matched slashed = slashed_length
matched subshell = enclosed 96 (λ c. not ((c == 10) || (c == 96)))

-- The best of these rules, where `best` with its match of `n` bytes comes before them.
unfoldable pub choose : (best : Rule) (n : ℕ) → List Rule → List ℕ → Rule × ℕ
choose best n [] input = (best, n)
choose best n (r ∷ rs) input =
    choose (if ltb n (matched r input) then r else best) (larger n (matched r input)) rs input

abbrev pub longest : List ℕ → Rule × ℕ
longest input = choose newline 0 rules input

-- delete_slashes: a backslash or a newline gives way to what is behind it.
unfoldable pub slashes_deleted : List ℕ → List ℕ
slashes_deleted [] = []
slashes_deleted (c ∷ []) = if not (c == 92) && not (c == 10) then c ∷ [] else 0 ∷ []
slashes_deleted (c ∷ d ∷ cs) =
    let kept = slashes_deleted (d ∷ cs) in
    let replaced = slashes_deleted cs in
    if not (c == 92) && not (c == 10) then c ∷ kept else d ∷ replaced

abbrev pub delete_slashes : List ℕ → List ℕ
delete_slashes text = c_string (slashes_deleted text)

-- What an action does: it returns a token, goes on, or puts bytes back in front of the input.
pub data Lexeme : Type 0 where
  returns : Token → Lexeme
  discards : Lexeme
  unputs : List ℕ → Lexeme

-- What yylex comes to: a token and the input behind it, or the end of the input.
pub data Lexed : Type 0 where
  token : Token → (rest : List ℕ) → Lexed
  eof : Lexed
  fault : Lexed
  out_of_fuel : Lexed

-- The string behind the opening mark, and that without its last byte, which is in front of the string
-- if it is empty.
abbrev pub behind_mark : List ℕ → List ℕ
behind_mark [] = []
behind_mark (c ∷ cs) = c_string cs

abbrev pub cut_last : List ℕ → Option (List ℕ)
cut_last [] = none
cut_last (c ∷ cs) = some (take (length cs) (c ∷ cs))

-- What is not the lexer's own: what the shell that is started for a text in backquotes is found to
-- print, and what strcpy leaves where it copies a string to the byte in front of it. C leaves that
-- open, as the two overlap.
pub record Outside : Type 0 where
  pub output : List ℕ → List ℕ
  pub strcpy_back : List ℕ → List ℕ

module _ (outside : Outside) where
  -- cmd is the string behind the mark by strdup, with its closing mark cut off and the exit appended.
  unfoldable pub substitute : List ℕ → Option Lexeme
  substitute string = do
    cmd ← cut_last string
    b ←
        append (record { text = cmd; capacity = length string + 1 })
          (10 ∷ (codes "exit" ++ (10 ∷ [])))
    some (unputs (outside.output b.text))

  unfoldable pub action : Rule → List ℕ → Option Lexeme
  unfolding substitute
  action newline text = some (returns newline_token)
  action blanks text = some discards
  action great text = some (returns great_token)
  action great_great text = some (returns greatgreat_token)
  action ampersand text = some (returns ampersand_token)
  action great_amp text = some (returns greatamp_token)
  action amp_less text = some (returns greatamp_token)
  action great_great_amp text = some (returns greatgreatamp_token)
  action amp_great_great text = some (returns greatgreatamp_token)
  action less text = some (returns less_token)
  action pipe text = some (returns pipe_token)
  action redir_join text = some (returns redir_token)
  action redir text = some (returns redir_token)
  action quoted text =
      cut_last (outside.strcpy_back (behind_mark text)) >>= λ text. some (returns (word_token text))
  action plain text = some (returns (word_token (c_string text)))
  action slashed text = some (returns (word_token (delete_slashes text)))
  action subshell text = substitute (behind_mark text)

  abbrev pub follow_up : Option Lexeme → (rest : List ℕ) → (List ℕ → Lexed) → Lexed
  follow_up none rest next = fault
  follow_up (some (returns t)) rest next = token t rest
  follow_up (some discards) rest next = next rest
  follow_up (some (unputs text)) rest next = next (text ++ rest)

  -- Where no rule matches, a byte is passed over.
  abbrev pub lex_match : Rule × ℕ → List ℕ → (List ℕ → Lexed) → Lexed
  lex_match (r, zero) input next = next (drop 1 input)
  lex_match (r, suc n) input next =
      follow_up (action r (take (suc n) input)) (drop (suc n) input) next

  unfoldable pub lex : (fuel : ℕ) → List ℕ → Lexed
  lex zero input = out_of_fuel
  lex (suc fuel) [] = eof
  lex (suc fuel) (c ∷ cs) = lex_match (longest (c ∷ cs)) (c ∷ cs) (λ rest. lex fuel rest)

  -- The next token. A round for each byte is enough.
  abbrev pub yylex : List ℕ → Lexed
  yylex input = lex (length input + 1) input
