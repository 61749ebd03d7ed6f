-- ===== src/Server/Reader/Lines.antt =====
-- What socket_read_line of lab5-src/socket.c returns, against a definition by the bytes ahead.
use mathlib.Core.Option
use cs.Common.{
  ℕ, suc, ◌+◌, ◌*◌, ◌≤◌, ◌<◌, ◌≡◌, refl, ap, ◌∙◌, inl, inr, Bool, Bool-cases, true, false, ◌&&◌,
  List, [], ◌∷◌, Option, none, some, length, ltb, leb, lt→ltb, ◌==◌, if◌then◌else◌, arith,
}
use cs.Server.Reader.{reverse_onto, ends_line, finish, read_from, socket_read_line}

-- The line ahead and what is behind it, `after_return` if a carriage return is the byte before: up to
-- a line feed behind a carriage return, both of which belong to it, or to the end of the input; NULL
-- if an error comes first.
abbrev pub ahead : (after_return : Bool) → List ℕ → Option (List ℕ) × List ℕ
ahead after_return [] = (some [], [])
ahead after_return (c ∷ cs) =
    let rest = ahead (c == 13) cs in
    if c == 255
    then (some [], cs)
    else if leb 128 c
    then (none, cs)
    else if after_return && c == 10
    then (some (10 ∷ []), cs)
    else (Option.map (λ l. c ∷ l) rest.0, rest.1)

abbrev last_is_return : List ℕ → Bool
last_is_return [] = false
last_is_return (c ∷ line) = c == 13

-- The line so far, and what is still ahead.
abbrev joined : List ℕ → Option (List ℕ) × List ℕ → Option (Option (List ℕ) × List ℕ)
joined line rest = some (Option.map (reverse_onto line) rest.0, rest.1)

finish-some :
    (room : ℕ) (line rest : List ℕ)
    → length line < room
    → finish room line rest ≡ some (some (reverse_onto line []), rest)
unfolding finish
finish-some room line rest h = rw (lt→ltb _ _ h) refl

joined-cons :
    (c : ℕ) (line : List ℕ) (rest : Option (List ℕ)) (cs : List ℕ)
    → joined (c ∷ line) (rest, cs) ≡ joined line (Option.map (λ l. c ∷ l) rest, cs)
joined-cons c line none cs = refl
joined-cons c line (some l) cs = refl

ends_line-cons : (c : ℕ) (line : List ℕ) → ends_line (c ∷ line) ≡ (last_is_return line && c == 10)
ends_line-cons c [] = refl
ends_line-cons c (b ∷ line) = ground arith

-- A line that has ended is returned whatever is ahead.
read_from-ended :
    (cs : List ℕ) (room max : ℕ) (line : List ℕ)
    → length line < room
    → ends_line line ≡ true
    → read_from cs room max line ≡ some (some (reverse_onto line []), cs)
unfolding read_from
read_from-ended [] room max line h e = finish-some room line [] h
read_from-ended (c ∷ cs) room max line h e = rw e (finish-some room line (c ∷ cs) h)

-- One byte more: the line has ended, or the rest of it is ahead.
joined-next :
    (c room max : ℕ) (cs line : List ℕ)
    → suc (length line) < room
    → (ends_line (c ∷ line) ≡ false
        → read_from cs room max (c ∷ line) ≡ joined (c ∷ line) (ahead (c == 13) cs))
    → read_from cs room max (c ∷ line)
      ≡ joined line (
          if last_is_return line && c == 10
          then (some (10 ∷ []), cs)
          else (Option.map (λ l. c ∷ l) (ahead (c == 13) cs).0, (ahead (c == 13) cs).1))
joined-next c room max cs line fits going = elim (Bool-cases (last_is_return line && c == 10)) [
  | inl ends ↦
      let feed : c ≡ 10 = ground arith in
      rw ends (
        read_from-ended cs room max (c ∷ line) fits (ends_line-cons c line ∙ ends)
        ∙ ap (λ b. some (some (reverse_onto line (b ∷ [])), cs)) feed)
  | inr goes_on ↦
      let rest = ahead (c == 13) cs in
      rw goes_on (going (ends_line-cons c line ∙ goes_on) ∙ joined-cons c line rest.0 rest.1)
]

-- The room after the test for a full line, and the length that it stands for.
grown-fits :
    (room max n : ℕ)
    → room ≡ max + 1
    → 1 ≤ max
    → n ≤ max
    → ((if leb max n then (if leb max n then max * 2 else max) + 1 else room)
        ≡ (if leb max n then max * 2 else max) + 1)
      × (n + 1 ≤ (if leb max n then max * 2 else max))
grown-fits room max n same some_room le = (ground arith, ground arith)

read_from-ahead :
    (cs : List ℕ) (room max : ℕ) (line : List ℕ)
    → room ≡ max + 1
    → 1 ≤ max
    → length line ≤ max
    → ends_line line ≡ false
    → read_from cs room max line ≡ joined line (ahead (last_is_return line) cs)
unfolding read_from
read_from-ahead [] room max line same some_room le e = finish-some room line [] (omega arith)
read_from-ahead (c ∷ cs) room max line same some_room le e = elim (Bool-cases (c == 255)) [
  | inl eof ↦ rw e (rw eof (finish-some room line cs (omega arith)))
  | inr c_read ↦ elim (Bool-cases (leb 128 c)) [
    | inl error ↦ rw e (rw c_read (rw error refl))
    | inr byte ↦
        let full = leb max (length line) in
        let max' = if full then max * 2 else max in
        let room' = if full then max' + 1 else room in
        let (same', more) = grown-fits room max (length line) same some_room le in
        let fits : ltb (length line) room' ≡ true = lt→ltb _ _ (omega (arith, same', more)) in
        rw e (
          rw c_read (
            rw byte (
              rw fits (
                joined-next c room' max' cs line (omega (arith, same', more)) λ going.
                  read_from-ahead cs room' max' (c ∷ line) same' (omega (arith, more))
                    (omega (arith, more)) going))))
  ]
]

joined-nil : (rest : Option (List ℕ)) (cs : List ℕ) → joined [] (rest, cs) ≡ some (rest, cs)
joined-nil none cs = refl
joined-nil (some l) cs = refl

-- socket_read_line writes within its line, whatever comes in, and returns the line up to the first
-- carriage return and line feed or up to the end of the input, or NULL when
-- an error comes first, and leaves what is behind it.
pub socket_read_line-ahead :
    (incoming : List ℕ) → socket_read_line incoming ≡ some (ahead false incoming)
unfolding socket_read_line
socket_read_line-ahead incoming =
    read_from-ahead incoming 17 16 [] refl (omega arith) (omega arith) refl
    ∙ joined-nil (ahead false incoming).0 (ahead false incoming).1
