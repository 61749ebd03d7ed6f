-- ===== src/Server/Request/Words.antt =====
-- Texts of a request without special bytes: how lines are read and split.
use mathlib.Core.List.{append_assoc, append-nil}
use cs.Common.{
  c_string, ℕ, ◌<◌, ◌≡◌, ◌≢◌, refl, sym, ap, ◌∙◌, false, List, [], ◌∷◌, ◌++◌, All, some, leb, ◌==◌,
  arith,
}
use cs.Server.Reader.Lines.{ahead}
use cs.Server.Request.{put_word, split_words, tokens}

-- A byte that may stand in a line, and one that may stand in a word.
abbrev pub IsPlain : ℕ → Type 0
IsPlain c = (c ≢ 0) × (c ≢ 13) × (c < 128)

abbrev pub IsLetter : ℕ → Type 0
IsLetter c = (c ≢ 32) × IsPlain c

abbrev pub IsLine : List ℕ → Type 0
IsLine = All IsPlain

-- A word has a first letter.
abbrev pub IsWord : List ℕ → Type 0
IsWord [] = ⊥
IsWord (c ∷ cs) = IsLetter c × All IsLetter cs

abbrev pub line_end : List ℕ
line_end = 13 ∷ 10 ∷ []

pub letters : (w : List ℕ) → IsWord w → All IsLetter w
letters [] h = tt
letters (c ∷ cs) h = h

pub plain_letters : (w : List ℕ) → All IsLetter w → IsLine w
plain_letters [] h = tt
plain_letters (c ∷ cs) h = (h.0.1, plain_letters cs h.1)

pub IsLine-append : (xs ys : List ℕ) → IsLine xs → IsLine ys → IsLine (xs ++ ys)
IsLine-append [] ys h k = k
IsLine-append (x ∷ xs) ys h k = (h.0, IsLine-append xs ys h.1 k)

-- A line is read up to its end.
pub ahead-line :
    (line rest : List ℕ)
    → IsLine line
    → ahead false (line ++ (line_end ++ rest)) ≡ (some (line ++ line_end), rest)
ahead-line [] rest h = refl
ahead-line (c ∷ line) rest h =
    let not_return : c == 13 ≡ false = ground (arith, h.0.1) in
    let not_eof : c == 255 ≡ false = ground (arith, h.0.2) in
    let not_error : leb 128 c ≡ false = ground (arith, h.0.2) in
    rw not_eof (rw not_error (rw not_return (rw (ahead-line line rest h.1) refl)))

-- Its string is all of it.
pub c_string-line : (line : List ℕ) → IsLine line → c_string (line ++ line_end) ≡ line ++ line_end
unfolding c_string
c_string-line [] h = refl
c_string-line (c ∷ line) h =
    let not_null : c == 0 ≡ false = ground (arith, h.0.0) in
    rw not_null (ap (λ l. c ∷ l) (c_string-line line h.1))

-- Letters are added to the word begun.
split_words-letters :
    (word w rest : List ℕ)
    → All IsLetter w
    → split_words 32 word (w ++ rest) ≡ split_words 32 (word ++ w) rest
unfolding split_words
split_words-letters word [] rest h = ap (λ v. split_words 32 v rest) (sym (append-nil word))
split_words-letters word (c ∷ w) rest h =
    let not_space : c == 32 ≡ false = ground (arith, h.0.0) in
    rw not_space (
      split_words-letters (word ++ (c ∷ [])) w rest h.1
      ∙ ap (λ v. split_words 32 v rest) (append_assoc word (c ∷ []) w))

split_words-space :
    (word rest : List ℕ) → split_words 32 word (32 ∷ rest) ≡ put_word word (split_words 32 [] rest)
unfolding split_words
split_words-space word rest = refl

split_words-nil : (word : List ℕ) → split_words 32 word [] ≡ put_word word []
unfolding split_words
split_words-nil word = refl

put_word-IsWord : (w : List ℕ) (words : List (List ℕ)) → IsWord w → put_word w words ≡ w ∷ words
put_word-IsWord [] words h = absurd h
put_word-IsWord (c ∷ cs) words h = refl

-- A word in front of a space is a token, and so is the last word.
pub tokens-word : (w rest : List ℕ) → IsWord w → tokens (w ++ (32 ∷ rest)) ≡ w ∷ tokens rest
tokens-word w rest h =
    split_words-letters [] w (32 ∷ rest) (letters w h)
    ∙ split_words-space w rest
    ∙ put_word-IsWord w (tokens rest) h

pub tokens-last : (w : List ℕ) → IsWord w → tokens w ≡ w ∷ []
tokens-last w h =
    ap (split_words 32 []) (sym (append-nil w))
    ∙ split_words-letters [] w [] (letters w h)
    ∙ split_words-nil w
    ∙ put_word-IsWord w [] h
