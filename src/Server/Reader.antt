-- ===== src/Server/Reader.antt =====
-- socket_read_line of lab5-src/socket.c. What the socket delivers is the list of its bytes. A byte of
-- 128 or more is negative as a char: 255 is EOF, which the end of the list stands for also, and the
-- others are errors.
pub mod Lines
use cs.Common.{
  ℕ, ◌+◌, ◌*◌, Bool, true, false, List, [], ◌∷◌, ◌++◌, Option, none, some, length, ltb, leb, ◌==◌,
  if◌then◌else◌,
}

-- INIT_LINE_SIZE
abbrev pub init_line_size : ℕ
init_line_size = 16

abbrev pub reverse_onto : List ℕ → List ℕ → List ℕ
reverse_onto [] ys = ys
reverse_onto (x ∷ xs) ys = reverse_onto xs (x ∷ ys)

-- The loop's test, on the bytes of the line, the last one first.
abbrev pub ends_line : List ℕ → Bool
ends_line (b ∷ a ∷ line) = if b == 10 then a == 13 else false
ends_line _ = false

-- line[i] = '\0' and the return, with what is left of the bytes. `none` is a write past the `room` of
-- the line; a line that is `none` is a NULL.
unfoldable pub finish : (room : ℕ) → List ℕ → (rest : List ℕ) → Option (Option (List ℕ) × List ℕ)
finish room line rest =
    if ltb (length line) room then some (some (reverse_onto line []), rest) else none

-- The rounds of the loop; `line` has the bytes so far, the last one first.
unfoldable pub read_from :
    List ℕ → (room max_length : ℕ) → List ℕ → Option (Option (List ℕ) × List ℕ)
unfolding finish
read_from [] room max_length line = finish room line []
read_from (c ∷ cs) room max_length line =
    let full = leb max_length (length line) in
    let max_length' = if full then max_length * 2 else max_length in
    let room' = if full then max_length' + 1 else room in
    let rest = read_from cs room' max_length' (c ∷ line) in
    if ends_line line
    then finish room line (c ∷ cs)
    else if c == 255
    then finish room line cs
    else if leb 128 c
    then some (none, cs)
    else if ltb (length line) room'
    then rest
    else none

unfoldable pub socket_read_line : List ℕ → Option (Option (List ℕ) × List ℕ)
socket_read_line incoming = read_from incoming (init_line_size + 1) init_line_size []
