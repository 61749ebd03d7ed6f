-- ===== src/Shell/Lexer/Tokens.antt =====
-- The tokens that the lexer of lab3-src/shell.l finds in a line written with single spaces.
use cs.Common.{
  c_string, ℕ, suc, ◌≡◌, inl, inr, refl, sym, ap, subst, ◌∙◌, false, List, [], ◌∷◌, ◌++◌, All,
  length, take, take-append, drop, drop-append, codes, ◌==◌, arith,
}
use cs.Shell.Lexer.{
  Outside, Token, word_token, newline_token, great_token, greatgreat_token, ampersand_token,
  greatamp_token, greatgreatamp_token, less_token, pipe_token, redir_token, is_blank, span, literal,
  enclosed, escaped, slashed_length, Rule, matched, choose, longest, blanks, plain, action, token,
  follow_up, lex_match, lex, yylex,
}
use cs.Shell.Lexer.Words.{IsPlain, IsPlainWord, IsGap, longest-plain}

-- A token as it is written.
abbrev pub spell : Token → List ℕ
spell (word_token w) = w
spell newline_token = 10 ∷ []
spell great_token = codes ">"
spell greatgreat_token = codes ">>"
spell ampersand_token = codes "&"
spell greatamp_token = codes ">&"
spell greatgreatamp_token = codes ">>&"
spell less_token = codes "<"
spell pipe_token = codes "|"
spell redir_token = codes "2>"

-- The tokens of one line, each in front of a space or the newline.
abbrev pub IsSpelled : Token → Type 0
IsSpelled (word_token w) = IsPlainWord w
IsSpelled newline_token = ⊥
IsSpelled _ = Unit

abbrev pub behind : List Token → (rest : List ℕ) → List ℕ
behind [] rest = 10 ∷ rest
behind (t ∷ ts) rest = 32 ∷ (spell t ++ behind ts rest)

abbrev pub written : List Token → (rest : List ℕ) → List ℕ
written [] rest = 10 ∷ rest
written (t ∷ ts) rest = spell t ++ behind ts rest

c_string-plain : (w : List ℕ) → All IsPlain w → c_string w ≡ w
unfolding c_string
c_string-plain [] h = refl
c_string-plain (c ∷ w) h =
    let (_, _, _, _, some_char) = h.0 in
    let differs : (c == 0) ≡ false = ground (arith, some_char) in
    rw differs (ap (λ w. c ∷ w) (c_string-plain w h.1))

module _ (outside : Outside) where
  lex-longest :
      (fuel : ℕ) (c : ℕ) (cs : List ℕ) (r : Rule) (n : ℕ)
      → longest (c ∷ cs) ≡ (r, suc n)
      → lex outside (suc fuel) (c ∷ cs)
        ≡ follow_up outside
            (action outside r (take (suc n) (c ∷ cs)))
            (drop (suc n) (c ∷ cs))
            (λ rest. lex outside fuel rest)
  unfolding lex
  lex-longest fuel c cs r n h =
      ap (λ m. lex_match outside m (c ∷ cs) (λ rest. lex outside fuel rest)) h

  module _ (fuel : ℕ) (d : ℕ) (rest : List ℕ) (gap : IsGap d) where
    lex_word :
        (w : List ℕ)
        → IsPlainWord w
        → lex outside (suc fuel) (w ++ (d ∷ rest)) ≡ token (word_token w) (d ∷ rest)
    unfolding action
    lex_word [] h = elim h [ ]
    lex_word (c ∷ w) h =
        let next = λ (rest : List ℕ). lex outside fuel rest in
        lex-longest fuel c (w ++ (d ∷ rest)) plain (length w) (longest-plain d rest gap c w h)
        ∙ ap
            (λ text.
              follow_up outside (action outside plain text)
                (drop (length (c ∷ w)) (c ∷ (w ++ (d ∷ rest)))) next)
            (take-append (c ∷ w) (d ∷ rest))
        ∙ ap (λ text. token (word_token text) (drop (length (c ∷ w)) (c ∷ (w ++ (d ∷ rest)))))
            (c_string-plain (c ∷ w) h)
        ∙ ap (λ rest. token (word_token (c ∷ w)) rest) (drop-append w (d ∷ rest))

    -- A token in front of a gap.
    lex-spell :
        (t : Token)
        → IsSpelled t
        → lex outside (suc fuel) (spell t ++ (d ∷ rest)) ≡ token t (d ∷ rest)
    unfolding lex choose matched span literal enclosed escaped slashed_length action
    lex-spell (word_token w) h = lex_word w h
    lex-spell newline_token h = elim h [ ]
    lex-spell great_token h = ground (arith, gap)
    lex-spell greatgreat_token h = ground (arith, gap)
    lex-spell ampersand_token h = ground (arith, gap)
    lex-spell greatamp_token h = ground (arith, gap)
    lex-spell greatgreatamp_token h = ground (arith, gap)
    lex-spell less_token h = ground (arith, gap)
    lex-spell pipe_token h = ground (arith, gap)
    lex-spell redir_token h = ground (arith, gap)

  -- The newline and a space.
  lex_newline :
      (fuel : ℕ) (rest : List ℕ) → lex outside (suc fuel) (10 ∷ rest) ≡ token newline_token rest
  unfolding lex choose matched span literal enclosed escaped slashed_length action
  lex_newline fuel rest = refl

  lex_space :
      (fuel : ℕ) (c : ℕ) (rest : List ℕ)
      → is_blank c ≡ false
      → lex outside (suc fuel) (32 ∷ c ∷ rest) ≡ lex outside fuel (c ∷ rest)
  unfolding choose matched span literal enclosed escaped slashed_length action
  lex_space fuel c rest h = lex-longest fuel 32 (c ∷ rest) blanks 0 (rw h refl)

  spell-begins :
      (t : Token)
      → IsSpelled t
      → (c : ℕ) × (cs : List ℕ) × (spell t ≡ c ∷ cs) × (is_blank c ≡ false)
  spell-begins (word_token []) h = elim h [ ]
  spell-begins (word_token (c ∷ cs)) h = (c, cs, refl, ground (arith, h.0))
  spell-begins newline_token h = elim h [ ]
  spell-begins great_token h = (62, [], refl, refl)
  spell-begins greatgreat_token h = (62, codes ">", refl, refl)
  spell-begins ampersand_token h = (38, [], refl, refl)
  spell-begins greatamp_token h = (62, codes "&", refl, refl)
  spell-begins greatgreatamp_token h = (62, codes ">&", refl, refl)
  spell-begins less_token h = (60, [], refl, refl)
  spell-begins pipe_token h = (124, [], refl, refl)
  spell-begins redir_token h = (50, codes ">", refl, refl)

  lex_behind_space :
      (fuel : ℕ) (t : Token) (rest : List ℕ)
      → IsSpelled t
      → lex outside (suc fuel) (32 ∷ (spell t ++ rest)) ≡ lex outside fuel (spell t ++ rest)
  lex_behind_space fuel t rest h =
      let (c, cs, e, unblank) = spell-begins t h in
      subst (λ l. lex outside (suc fuel) (32 ∷ (l ++ rest)) ≡ lex outside fuel (l ++ rest)) (sym e)
        (lex_space fuel c (cs ++ rest) unblank)

  lex-behind :
      (fuel : ℕ) (t : Token) (ts : List Token) (rest : List ℕ)
      → IsSpelled t
      → lex outside (suc fuel) (spell t ++ behind ts rest) ≡ token t (behind ts rest)
  lex-behind fuel t [] rest h = lex-spell fuel 10 rest (inr refl) t h
  lex-behind fuel t (u ∷ ts) rest h = lex-spell fuel 32 (spell u ++ behind ts rest) (inl refl) t h

  -- In a line of tokens with single spaces between them yylex finds one after the other, and its
  -- newline after the last.
  pub yylex-written :
      (t : Token) (ts : List Token) (rest : List ℕ)
      → IsSpelled t
      → yylex outside (written (t ∷ ts) rest) ≡ token t (behind ts rest)
  yylex-written t ts rest h =
      ap (λ n. lex outside n (written (t ∷ ts) rest)) (omega arith)
      ∙ lex-behind (length (written (t ∷ ts) rest)) t ts rest h

  pub yylex-behind :
      (t : Token) (ts : List Token) (rest : List ℕ)
      → IsSpelled t
      → yylex outside (behind (t ∷ ts) rest) ≡ token t (behind ts rest)
  yylex-behind t ts rest h =
      let n = length (spell t ++ behind ts rest) in
      ap (λ n. lex outside n (behind (t ∷ ts) rest)) (omega arith)
      ∙ lex_behind_space (suc n) t (behind ts rest) h
      ∙ lex-behind n t ts rest h

  pub yylex-newline : (rest : List ℕ) → yylex outside (10 ∷ rest) ≡ token newline_token rest
  yylex-newline rest =
      ap (λ n. lex outside n (10 ∷ rest)) (omega arith) ∙ lex_newline (suc (length rest)) rest
