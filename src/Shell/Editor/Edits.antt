-- ===== src/Shell/Editor/Edits.antt =====
-- What read_line of lab3-src/read-line.c is meant to do with the keys, on lines as texts.
use cs.Common.{
  ℕ, suc, ◌+◌, ◌%◌, Bool, ◌&&◌, List, [], ◌∷◌, Option, none, some, length, get_elem?, ltb, ◌==◌,
  if◌then◌else◌,
}
use cs.Shell.Editor.{Phase, typing, escape, sequence, history, Read, line, waiting, fault}

-- A line, newest character first, or one of which more was deleted than there was: n + 1 too many.
pub data Content : Type 0 where
  held : List ℕ → Content
  below : ℕ → Content

-- A line, newest character first, in front of a text.
abbrev pub onto : List ℕ → List ℕ → List ℕ
onto [] text = text
onto (c ∷ cs) text = onto cs (c ∷ text)

pub data Kind : Type 0 where
  enter : Kind
  backspace : Kind
  help : Kind
  introduces : Kind
  character : Kind
  other : Kind

unfoldable pub kind : ℕ → Kind
kind ch =
    if ch == 10
    then enter
    else if ch == 8
    then backspace
    else if ch == 127
    then backspace
    else if ch == 31
    then help
    else if ch == 27
    then introduces
    else if ltb 31 ch && ltb ch 127
    then character
    else other

-- A line returned, with the place in the history and the keys behind it; keys used up; or a write
-- outside of the buffer.
pub data Edited : Type 0 where
  returns : List ℕ → ℕ → List ℕ → Edited
  waits : Edited
  overruns : Edited

-- What a read comes to, for the caller.
abbrev pub result : Read → Edited
result (line text e keys) = returns text e.history_index keys
result (waiting p e) = waits
result fault = overruns

module _ (next : Phase → Content → ℕ → Edited) (keys : List ℕ) where
  -- A key of each kind. The longest line has 2046 characters; help gives up the line, as an empty
  -- text or, if it was empty, as an empty line.
  abbrev pub press : Kind → ℕ → Content → ℕ → Edited
  press other ch l h = next typing l h
  press introduces ch l h = next escape l h
  press backspace ch (held []) h = next typing (below 0) h
  press backspace ch (held (c ∷ t)) h = next typing (held t) h
  press backspace ch (below n) h = next typing (below (suc n)) h
  press character ch (held t) h =
      if length t == 2046 then returns (onto t (10 ∷ [])) h keys else next typing (held (ch ∷ t)) h
  press enter ch (held t) h = returns (onto t (10 ∷ [])) h keys
  press help ch (held []) h = returns (10 ∷ []) h keys
  press help ch (held (c ∷ t)) h = returns [] h keys
  press _ ch (below n) h = overruns

  abbrev pub show_command : Option (List ℕ) → ℕ → Edited
  show_command none h = overruns
  show_command (some command) h = next typing (held (onto command [])) ((h + 1) % length history)

  abbrev pub end_sequence : Bool → Content → ℕ → Edited
  end_sequence is_up l h = if is_up then show_command (get_elem? history h) h else next typing l h

unfoldable pub edits : Phase → Content → ℕ → List ℕ → Edited
edits p l h [] = waits
edits typing l h (ch ∷ keys) = press (λ p l h. edits p l h keys) keys (kind ch) ch l h
edits escape l h (ch ∷ keys) = edits (sequence ch) l h keys
edits (sequence first_char) l h (ch ∷ keys) =
    end_sequence (λ p l h. edits p l h keys) keys ((first_char == 91) && (ch == 65)) l h
