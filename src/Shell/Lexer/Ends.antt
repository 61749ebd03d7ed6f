-- ===== src/Shell/Lexer/Ends.antt =====
-- That yylex of lab3-src/shell.l ends, with a token that took some of the input, where it does not end
-- in a fault.
use cs.Common.{
  ◌>>=◌, ℕ, zero, suc, ◌+◌, ◌≤◌, ◌<◌, ◌≡◌, refl, sym, ap, subst, false, List, [], ◌∷◌, Option, none,
  some, length, take, drop, ltb, arith,
}
use cs.Server.Buffer.{append}
use cs.Shell.Lexer.{
  Outside, word_token, Rule, longest, Lexeme, returns, discards, unputs, Lexed, token, eof,
  behind_mark, cut_last, newline, blanks, great, great_great, ampersand, great_amp, amp_less,
  great_great_amp, amp_great_great, less, pipe, redir_join, redir, quoted, plain, slashed, subshell,
  substitute, action, follow_up, lex_match, lex, yylex,
}

-- Nothing is put back in front of the input.
abbrev NoUnput : Option Lexeme → Type 0
NoUnput (some (unputs text)) = ⊥
NoUnput _ = Unit

-- A token took at least a byte, and there was an end.
abbrev pub IsEnded : (n : ℕ) → Lexed → Type 0
IsEnded n (token t rest) = length rest < n
IsEnded n eof = Unit
IsEnded n Lexed.fault = Unit
IsEnded n Lexed.out_of_fuel = ⊥

length-take : (n : ℕ) (xs : List ℕ) → n ≤ length xs → length (take n xs) ≡ n
length-take zero xs h = refl
length-take (suc n) [] h = omega (arith, h)
length-take (suc n) (x ∷ xs) h = ap suc (length-take n xs (omega (arith, h)))

length-drop : (n : ℕ) (xs : List ℕ) → length (drop n xs) ≤ length xs
length-drop zero xs = omega arith
length-drop (suc n) [] = omega arith
length-drop (suc n) (x ∷ xs) = omega (arith, length-drop n xs)

IsEnded-≤ : (m n : ℕ) (r : Lexed) → m ≤ n → IsEnded m r → IsEnded n r
IsEnded-≤ m n (token t rest) le h = omega arith
IsEnded-≤ m n eof le h = tt
IsEnded-≤ m n Lexed.fault le h = tt
IsEnded-≤ m n Lexed.out_of_fuel le h = h

module _ (outside : Outside) where
  -- The exit never fits behind the text of backquotes.
  pub substitute-none : (string : List ℕ) → substitute outside string ≡ none
  unfolding substitute append
  substitute-none [] = refl
  substitute-none (c ∷ cs) =
      let full : ltb (length (take (length cs) (c ∷ cs)) + 6) (length (c ∷ cs) + 1) ≡ false =
        ground (arith, length-take (length cs) (c ∷ cs) (omega arith)) in
      rw full refl

  cut-NoUnput :
      (string : List ℕ) → NoUnput (cut_last string >>= λ text. some (returns (word_token text)))
  cut-NoUnput [] = tt
  cut-NoUnput (c ∷ cs) = tt

  action-NoUnput : (r : Rule) (text : List ℕ) → NoUnput (action outside r text)
  unfolding action
  action-NoUnput newline text = tt
  action-NoUnput blanks text = tt
  action-NoUnput great text = tt
  action-NoUnput great_great text = tt
  action-NoUnput ampersand text = tt
  action-NoUnput great_amp text = tt
  action-NoUnput amp_less text = tt
  action-NoUnput great_great_amp text = tt
  action-NoUnput amp_great_great text = tt
  action-NoUnput less text = tt
  action-NoUnput pipe text = tt
  action-NoUnput redir_join text = tt
  action-NoUnput redir text = tt
  action-NoUnput quoted text = cut-NoUnput (outside.strcpy_back (behind_mark text))
  action-NoUnput plain text = tt
  action-NoUnput slashed text = tt
  action-NoUnput subshell text = subst NoUnput (sym (substitute-none (behind_mark text))) tt

  follow_up-IsEnded :
      (m : Option Lexeme) (rest : List ℕ) (next : List ℕ → Lexed) (n : ℕ)
      → NoUnput m
      → length rest < n
      → IsEnded (length rest) (next rest)
      → IsEnded n (follow_up outside m rest next)
  follow_up-IsEnded none rest next n h lt ended = tt
  follow_up-IsEnded (some (returns t)) rest next n h lt ended = lt
  follow_up-IsEnded (some discards) rest next n h lt ended =
      IsEnded-≤ (length rest) n (next rest) (omega arith) ended
  follow_up-IsEnded (some (unputs text)) rest next n h lt ended = elim h [ ]

  lex_match-IsEnded :
      (m : Rule × ℕ) (c : ℕ) (cs : List ℕ) (next : List ℕ → Lexed)
      → ((rest : List ℕ) → length rest ≤ length cs → IsEnded (length rest) (next rest))
      → IsEnded (suc (length cs)) (lex_match outside m (c ∷ cs) next)
  lex_match-IsEnded (r, zero) c cs next h =
      IsEnded-≤ (length cs) (suc (length cs)) (next cs) (omega arith) (h cs (omega arith))
  lex_match-IsEnded (r, suc n) c cs next h =
      let le = length-drop n cs in
      follow_up-IsEnded (action outside r (take (suc n) (c ∷ cs))) (drop n cs) next
        (suc (length cs)) (action-NoUnput r (take (suc n) (c ∷ cs))) (omega arith)
        (h (drop n cs) le)

  lex-IsEnded :
      (fuel : ℕ) (input : List ℕ)
      → length input < fuel
      → IsEnded (length input) (lex outside fuel input)
  unfolding lex
  lex-IsEnded zero input h = omega (arith, h)
  lex-IsEnded (suc fuel) [] h = tt
  lex-IsEnded (suc fuel) (c ∷ cs) h =
      lex_match-IsEnded (longest (c ∷ cs)) c cs (λ rest. lex outside fuel rest)
        (λ rest le. lex-IsEnded fuel rest (omega arith))

  -- yylex ends, and a token took some of the input.
  pub yylex-IsEnded : (input : List ℕ) → IsEnded (length input) (yylex outside input)
  yylex-IsEnded input = lex-IsEnded (length input + 1) input (omega arith)
