-- ===== src/Shell/Editor.antt =====
-- read_line of lab3-src/read-line.c: a line from the terminal in raw mode, key by key. What is typed
-- is a list of bytes; a read for which there is none left waits. `fault` is a write outside of the
-- line's buffer. line_length does not come to the bounds of an int.
pub mod Edits
pub mod Held
pub mod Typed
pub mod Returned
mod Tests
use cs.Common.{
  ◌>>=◌, ℤ, pos, negsuc, increment, decrement, ℕ, zero, suc, ◌+◌, ◌%◌, Bool, false, ◌&&◌, ◌||◌,
  List, [], ◌∷◌, ◌++◌, Option, none, some, length, get_elem?, ltb, leb, ◌==◌, codes, if◌then◌else◌,
}

abbrev pub max_buffer_line : ℕ
max_buffer_line = 2048

abbrev pub history : List (List ℕ)
history =
    codes "ls -al | grep x"
    ∷ codes "ps -e"
    ∷ codes "cat read-line-example.c"
    ∷ codes "vi hello.c"
    ∷ codes "make"
    ∷ codes "ls -al | grep xxx | grep yyy"
    ∷ []

abbrev pub usage : List ℕ
usage =
    10
    ∷ (codes " ctrl-?       Print usage"
        ++ (10
            ∷ (codes " Backspace    Deletes last character"
                ++ (10 ∷ (codes " up arrow     See last command in the history" ++ (10 ∷ []))))))

-- line_buffer, line_length and history_index, with what is written to the terminal.
pub record Editor : Type 0 where
  pub line_buffer : ℕ → ℕ
  pub line_length : ℤ
  pub history_index : ℕ
  pub written : List ℕ

-- line_buffer[i] = ch
unfoldable pub put : (ℕ → ℕ) → ℤ → ℕ → Option (ℕ → ℕ)
put buffer (pos i) ch =
    if ltb i max_buffer_line then some (λ k. if i == k then ch else buffer k) else none
put buffer (negsuc i) ch = none

-- strcpy to the buffer from `i` on.
unfoldable pub copy : (ℕ → ℕ) → (i : ℕ) → List ℕ → Option (ℕ → ℕ)
copy buffer i [] = put buffer (pos i) 0
copy buffer i (c ∷ cs) = put buffer (pos i) c >>= λ buffer. copy buffer (i + 1) cs

-- The string in the buffer from `i` on, with as many bytes as are left of it.
unfoldable pub string_at : (left i : ℕ) → (ℕ → ℕ) → Option (List ℕ)
string_at zero i buffer = none
string_at (suc left) i buffer =
    let more : Option (List ℕ) = string_at left (i + 1) buffer >>= λ cs. some (buffer i ∷ cs) in
    if buffer i == 0 then some [] else more

-- Which of its three reads read_line is at; the third knows the character that the second read.
pub data Phase : Type 0 where
  typing : Phase
  escape : Phase
  sequence : (first_char : ℕ) → Phase

-- What becomes of the loop: it goes on, or is left by a break.
pub data Outcome : Type 0 where
  going : Phase → Editor → Outcome
  leaves : Editor → Outcome
  fault : Outcome

abbrev pub echo : Editor → List ℕ → Editor
echo e bytes = record e { written = e.written ++ bytes }

abbrev pub with_buffer : Option (ℕ → ℕ) → ((ℕ → ℕ) → Outcome) → Outcome
with_buffer none f = fault
with_buffer (some buffer) f = f buffer

abbrev pub is_full : ℤ → Bool
is_full (pos n) = n == 2046
is_full (negsuc n) = false

unfoldable pub add_char : Editor → ℕ → Outcome
add_char e ch =
    let e = echo e (ch ∷ []) in
    if is_full e.line_length
    then leaves e
    else with_buffer (put e.line_buffer e.line_length ch) λ buffer.
      going typing (record e { line_buffer = buffer; line_length = increment e.line_length })

abbrev pub print_usage : Editor → Outcome
print_usage e =
    with_buffer (put e.line_buffer (pos 0) 0)
      λ buffer. leaves (record e { line_buffer = buffer; written = e.written ++ usage })

abbrev pub delete_char : Editor → Outcome
delete_char e =
    going typing
      (record e { line_length = decrement e.line_length; written = e.written ++ (8 ∷ 32 ∷ 8 ∷ []) })

-- A character, as often as a loop up to line_length writes it.
abbrev pub times : ℕ → ℕ → List ℕ
times zero ch = []
times (suc n) ch = ch ∷ times n ch

abbrev pub along : ℤ → ℕ → List ℕ
along (pos n) ch = times n ch
along (negsuc n) ch = []

abbrev pub recalled : Editor → (ℕ → ℕ) → Option (List ℕ) → Outcome
recalled e buffer none = fault
recalled e buffer (some line) = going typing (record {
  line_buffer = buffer;
  line_length = pos (length line);
  history_index = (e.history_index + 1) % length history;
  written = e.written ++ line;
})

abbrev pub recall : Editor → Option (List ℕ) → Outcome
recall e none = fault
recall e (some command) =
    with_buffer (copy e.line_buffer 0 command)
      λ buffer. recalled e buffer (string_at max_buffer_line 0 buffer)

-- The up arrow.
unfoldable pub up_arrow : Editor → Outcome
up_arrow e =
    recall (echo e (along e.line_length 8 ++ (along e.line_length 32 ++ along e.line_length 8)))
      (get_elem? history e.history_index)

unfoldable pub typed : Editor → ℕ → Outcome
typed e ch =
    if leb 32 ch && ltb ch 127
    then add_char e ch
    else if ch == 10
    then leaves (echo e (10 ∷ []))
    else if ch == 31
    then print_usage e
    else if (ch == 8) || (ch == 127)
    then delete_char e
    else if ch == 27
    then going escape e
    else going typing e

unfoldable pub key : Phase → Editor → ℕ → Outcome
key typing e ch = typed e ch
key escape e ch = going (sequence ch) e
key (sequence first_char) e ch =
    if (first_char == 91) && (ch == 65) then up_arrow e else going typing e

-- Where read_line ends: with the line, or waiting for a key.
pub data Read : Type 0 where
  line : (text : List ℕ) → Editor → (keys : List ℕ) → Read
  waiting : Phase → Editor → Read
  fault : Read

-- Behind the loop: the line end and the null.
unfoldable pub end_line : Editor → Option (List ℕ × Editor)
end_line e = do
  buffer ← put e.line_buffer e.line_length 10
  let line_length = increment e.line_length
  buffer ← put buffer line_length 0
  text ← string_at max_buffer_line 0 buffer
  some (text, record e { line_buffer = buffer; line_length = line_length })

abbrev pub returned : Option (List ℕ × Editor) → List ℕ → Read
returned none keys = Read.fault
returned (some (text, e)) keys = line text e keys

abbrev pub follow : Outcome → (Phase → Editor → Read) → List ℕ → Read
follow (going p e) next keys = next p e
follow (leaves e) next keys = returned (end_line e) keys
follow fault next keys = Read.fault

unfoldable pub edit : Phase → Editor → List ℕ → Read
edit p e [] = waiting p e
edit p e (ch ∷ keys) = follow (key p e ch) (λ p e. edit p e keys) keys

unfoldable pub read_line : Editor → (keys : List ℕ) → Read
read_line e keys = edit typing (record e { line_length = pos 0 }) keys
