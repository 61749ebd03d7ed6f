-- ===== src/Shell/Editor/Returned.antt =====
-- What read_line of lab3-src/read-line.c returns for characters, and when it overruns its buffer.
use cs.Common.{
  ℕ, zero, suc, ◌+◌, ◌≤◌, ◌<◌, ◌≡◌, refl, ap, ◌∙◌, ◌⊎◌, inl, inr, true, false, List, [], ◌∷◌, ◌++◌,
  All, length, ◌==◌, arith,
}
use cs.Shell.Editor.{Editor, typing, history, read_line, times}
use cs.Shell.Editor.Edits.{
  Content, held, below, onto, Kind, character, backspace, enter, kind, returns, overruns, result,
  press, edits,
}
use cs.Shell.Editor.Typed.{read_line-edits}

abbrev pub IsPrintable : ℕ → Type 0
IsPrintable c = (32 ≤ c) × (c < 127)

kind_of_printable : (c : ℕ) → IsPrintable c → kind c ≡ character
unfolding kind
kind_of_printable c h = ground arith

kind_of_enter : kind 10 ≡ enter
unfolding kind
kind_of_enter = refl

kind_of_backspace : kind 8 ≡ backspace
unfolding kind
kind_of_backspace = refl

-- A key of a kind.
edits-press :
    (l : Content) (h c : ℕ) (keys : List ℕ) (k : Kind)
    → kind c ≡ k
    → edits typing l h (c ∷ keys) ≡ press (λ p l h. edits p l h keys) keys k c l h
unfolding edits
edits-press l h c keys k e = ap (λ k. press (λ p l h. edits p l h keys) keys k c l h) e

edits-characters :
    (h : ℕ) (cs t keys : List ℕ)
    → All IsPrintable cs
    → length t + length cs ≤ 2046
    → edits typing (held t) h (cs ++ keys) ≡ edits typing (held (onto cs t)) h keys
edits-characters h [] t keys plain le = refl
edits-characters h (c ∷ cs) t keys plain le =
    let room : (length t == 2046) ≡ false = ground arith in
    edits-press (held t) h c (cs ++ keys) character (kind_of_printable c plain.0)
    ∙ rw room (edits-characters h cs (c ∷ t) keys plain.1 (omega arith))

onto-text : (cs t s : List ℕ) → onto (onto cs t) s ≡ onto t (cs ++ s)
onto-text [] t s = refl
onto-text (c ∷ cs) t s = onto-text cs (c ∷ t) s

length-onto_text : (cs t : List ℕ) → length (onto cs t) ≡ length t + length cs
length-onto_text [] t = omega arith
length-onto_text (c ∷ cs) t = omega (arith, length-onto_text cs (c ∷ t))

-- Up to 2046 printable characters and Enter are returned as they are typed, with a line end; 2046 of
-- them are returned so too at one printable character more, which is lost.
pub read_line-characters :
    (e : Editor) (cs keys : List ℕ)
    → e.history_index < length history
    → All IsPrintable cs
    → length cs ≤ 2046
    → (result (read_line e (cs ++ (10 ∷ keys))) ≡ returns (cs ++ (10 ∷ [])) e.history_index keys)
      × ((c : ℕ)
          → IsPrintable c
          → length cs ≡ 2046
          → result (read_line e (cs ++ (c ∷ keys)))
            ≡ returns (cs ++ (10 ∷ [])) e.history_index keys)
read_line-characters e cs keys small plain le =
    let h = e.history_index in
    let text : returns (onto (onto cs []) (10 ∷ [])) h keys ≡ returns (cs ++ (10 ∷ [])) h keys =
      ap (λ text. returns text h keys) (onto-text cs [] (10 ∷ [])) in
    (
      read_line-edits e (cs ++ (10 ∷ keys)) small
          ∙ edits-characters h cs [] (10 ∷ keys) plain (omega arith)
          ∙ edits-press (held (onto cs [])) h 10 keys enter kind_of_enter
          ∙ text,
      λ c printable full.
          let full : (length (onto cs []) == 2046) ≡ true =
            ground (arith, length-onto_text cs [], full) in
          read_line-edits e (cs ++ (c ∷ keys)) small
          ∙ edits-characters h cs [] (c ∷ keys) plain (omega arith)
          ∙ edits-press (held (onto cs [])) h c keys character (kind_of_printable c printable)
          ∙ rw full text,
    )

edits-backspaces :
    (h m n : ℕ) (keys : List ℕ)
    → edits typing (below m) h (times n 8 ++ keys) ≡ edits typing (below (n + m)) h keys
edits-backspaces h m zero keys = ap (λ k. edits typing (below k) h keys) (omega arith)
edits-backspaces h m (suc n) keys =
    edits-press (below m) h 8 (times n 8 ++ keys) backspace kind_of_backspace
    ∙ edits-backspaces h (suc m) n keys
    ∙ ap (λ k. edits typing (below k) h keys) (omega arith)

-- One or more backspaces on an empty line, and Enter or a printable character behind them: read_line
-- writes in front of its buffer.
pub read_line-overruns :
    (e : Editor) (n c : ℕ) (keys : List ℕ)
    → e.history_index < length history
    → (c ≡ 10) ⊎ IsPrintable c
    → result (read_line e (times (suc n) 8 ++ (c ∷ keys))) ≡ overruns
read_line-overruns e n c keys small h =
    read_line-edits e (times (suc n) 8 ++ (c ∷ keys)) small
    ∙ edits-press (held []) e.history_index 8 (times n 8 ++ (c ∷ keys)) backspace kind_of_backspace
    ∙ edits-backspaces e.history_index 0 n (c ∷ keys)
    ∙ elim h [
      | inl is_enter ↦
          edits-press (below (n + 0)) e.history_index c keys enter
            (ap kind is_enter ∙ kind_of_enter)
      | inr printable ↦
          edits-press (below (n + 0)) e.history_index c keys character
            (kind_of_printable c printable)
    ]
