-- ===== src/Shell/Lexer/Words.antt =====
-- What the lexer of lab3-src/shell.l makes of a line written with single spaces.
use cs.Common.{
  ℕ, suc, ◌≡◌, ◌≢◌, ◌⊎◌, refl, ap, ◌∙◌, Bool, true, false, not, ◌||◌, List, [], ◌∷◌, ◌++◌, All,
  length, codes, ltb, ◌==◌, arith,
}
use cs.Shell.Lexer.{
  is_blank, ends_word, span, literal, enclosed, slashed_length, Rule, matched, choose, longest,
  newline, blanks, great, great_great, ampersand, great_amp, amp_less, great_great_amp,
  amp_great_great, less, pipe, redir_join, redir, quoted, plain, slashed, subshell,
}

-- A byte of a plain word: no space, operator, quote or backslash, and no null.
abbrev pub IsPlain : ℕ → Type 0
IsPlain c = (ends_word c ≡ false) × (c ≢ 34) × (c ≢ 92) × (c ≢ 96) × (c ≢ 0)

abbrev pub IsPlainWord : List ℕ → Type 0
IsPlainWord [] = ⊥
IsPlainWord (c ∷ cs) = All IsPlain (c ∷ cs)

-- A space or a newline.
abbrev pub IsGap : ℕ → Type 0
IsGap c = (c ≡ 32) ⊎ (c ≡ 10)

abbrev before_plain : List Rule
before_plain =
    newline ∷ blanks ∷ great ∷ great_great ∷ ampersand ∷ great_amp ∷ amp_less ∷ great_great_amp
    ∷ amp_great_great ∷ less ∷ pipe ∷ redir_join ∷ redir ∷ quoted ∷ []

abbrev behind_plain : List Rule
behind_plain = slashed ∷ subshell ∷ []

-- Rules that do not match leave the best one, and a first match is the best one.
choose-none :
    (best : Rule) (n : ℕ) (input : List ℕ) (rs qs : List Rule)
    → All (λ r. matched r input ≡ 0) rs
    → choose best n (rs ++ qs) input ≡ choose best n qs input
unfolding choose
choose-none best n input [] qs h = refl
choose-none best n input (r ∷ rs) qs h =
    let none_better : ltb n (matched r input) ≡ false = ground (arith, h.0) in
    rw (none_better, choose) (choose-none best n input rs qs h.1)

choose-better :
    (best r : Rule) (input : List ℕ) (rs : List Rule) (m : ℕ)
    → matched r input ≡ suc m
    → choose best 0 (r ∷ rs) input ≡ choose r (suc m) rs input
unfolding choose
choose-better best r input rs m h =
    let better : ltb 0 (matched r input) ≡ true = ground (arith, h) in
    rw better (ap (λ n. choose r n rs input) h)

choose-end : (best : Rule) (n : ℕ) (input : List ℕ) → choose best n [] input ≡ (best, n)
unfolding choose
choose-end best n input = refl

module _ (d : ℕ) (rest : List ℕ) (gap : IsGap d) where
  span-plain :
      (w : List ℕ) → All IsPlain w → span (λ c. not (ends_word c)) (w ++ (d ∷ rest)) ≡ length w
  unfolding span
  span-plain [] h = ground (arith, gap)
  span-plain (c ∷ w) h = ground (arith, h.0, span-plain w h.1)

  slashed-plain : (w : List ℕ) → All IsPlain w → slashed_length (w ++ (d ∷ rest)) ≡ 0
  unfolding slashed_length
  slashed-plain [] h = ground (arith, gap)
  slashed-plain (c ∷ w) h = ground (arith, h.0, slashed-plain w h.1)

  -- No other rule matches a plain word, and its rule matches it whole.
  matched-plain : (w : List ℕ) → IsPlainWord w → matched plain (w ++ (d ∷ rest)) ≡ length w
  unfolding matched
  matched-plain [] h = elim h [ ]
  matched-plain (c ∷ w) h = span-plain (c ∷ w) h

  -- The rules that a plain word's first byte rules out, or its second one.
  none-literal :
      (x : ℕ) (text : List ℕ) (c : ℕ) (cs : List ℕ) → c ≢ x → literal (x ∷ text) (c ∷ cs) ≡ 0
  unfolding literal
  none-literal x text c cs h = ground (arith, h)

  none-redir :
      (x : ℕ) (text : List ℕ) (c : ℕ) (w : List ℕ)
      → All IsPlain w
      → literal (x ∷ 62 ∷ text) (c ∷ (w ++ (d ∷ rest))) ≡ 0
  unfolding literal
  none-redir x text c [] h = ground (arith, gap)
  none-redir x text c (e ∷ w) h = ground (arith, h.0)

  no_blank : (c : ℕ) (cs : List ℕ) → is_blank c ≡ false → matched blanks (c ∷ cs) ≡ 0
  unfolding matched span
  no_blank c cs h = rw h refl

  no_enclosed :
      (mark : ℕ) (test : ℕ → Bool) (c : ℕ) (cs : List ℕ)
      → c ≢ mark
      → enclosed mark test (c ∷ cs) ≡ 0
  unfolding enclosed
  no_enclosed mark test c cs h =
      let differs : (c == mark) ≡ false = ground (arith, h) in rw differs refl

  matched-other :
      (c : ℕ) (w : List ℕ)
      → All IsPlain (c ∷ w)
      → All (λ r. matched r (c ∷ (w ++ (d ∷ rest))) ≡ 0) before_plain
        × All (λ r. matched r (c ∷ (w ++ (d ∷ rest))) ≡ 0) behind_plain
  unfolding matched
  matched-other c w h =
      let (ends, quote, slash, tick, null) = h.0 in
      let differs : (x : ℕ) (text : List ℕ)
          → c ≢ x
          → literal (x ∷ text) (c ∷ (w ++ (d ∷ rest))) ≡ 0 =
        λ x text. none-literal x text c (w ++ (d ∷ rest)) in
      let no62 : c ≢ 62 = ground (arith, ends) in
      let no38 : c ≢ 38 = ground (arith, ends) in
      (
        (
          differs 10 [] (ground (arith, ends)),
          (
            no_blank c (w ++ (d ∷ rest)) (ground (arith, ends)),
            (
              differs 62 [] no62,
              (
                differs 62 (codes ">") no62,
                (
                  differs 38 [] no38,
                  (
                    differs 62 (codes "&") no62,
                    (
                      differs 38 (codes "<") no38,
                      (
                        differs 62 (codes ">&") no62,
                        (
                          differs 38 (codes ">>") no38,
                          (
                            differs 60 [] (ground (arith, ends)),
                            (
                              differs 124 [] (ground (arith, ends)),
                              (
                                none-redir 50 (codes "&1") c w h.1,
                                (
                                  none-redir 50 [] c w h.1,
                                  (
                                    no_enclosed 34 (λ c. not ((c == 9) || (c == 10) || (c == 34))) c
                                        (w ++ (d ∷ rest)) quote,
                                    tt,
                                  ),
                                ),
                              ),
                            ),
                          ),
                        ),
                      ),
                    ),
                  ),
                ),
              ),
            ),
          ),
        ),
        (
          slashed-plain (c ∷ w) h,
          (no_enclosed 96 (λ c. not ((c == 10) || (c == 96))) c (w ++ (d ∷ rest)) tick, tt),
        ),
      )

  pub longest-plain :
      (c : ℕ) (w : List ℕ)
      → All IsPlain (c ∷ w)
      → longest (c ∷ (w ++ (d ∷ rest))) ≡ (plain, suc (length w))
  longest-plain c w h =
      let input = c ∷ (w ++ (d ∷ rest)) in
      let (before, behind) = matched-other c w h in
      choose-none newline 0 input before_plain (plain ∷ behind_plain) before
      ∙ choose-better newline plain input behind_plain (length w) (matched-plain (c ∷ w) h)
      ∙ choose-none plain (suc (length w)) input behind_plain [] behind
      ∙ choose-end plain (suc (length w)) input
