-- ===== src/Server/ContentType.antt =====
-- get_content_type of lab5-src/misc.c: it reads what the program file prints, and copies it without
-- the spaces. The pipe, the program that is started, and the pieces in which read delivers its output
-- are parameters. `fault` is a write outside of an array or the use of bytes never set.
pub mod Copied
use cs.Common.{
  ◌>>=◌, ℕ, zero, suc, ◌+◌, Bool, true, false, not, ◌&&◌, ◌||◌, List, [], ◌∷◌, Option, none, some,
  length, leb, ◌==◌, if◌then◌else◌,
}
use cs.Common.Slots.{Slot, item, Slots, fresh, resize, assign}

-- INIT_BUF_SIZE
abbrev pub init_buf_size : ℕ
init_buf_size = 16

pub record Printed : Type 0 where
  pub buf : Slots ℕ
  pub buf_end : ℕ

-- read: the bytes go to the array from `i` on.
unfoldable pub put_bytes : List ℕ → (i : ℕ) → Slots ℕ → Option (Slots ℕ)
put_bytes [] i a = some a
put_bytes (c ∷ cs) i a = assign a i (item c) >>= λ a. put_bytes cs (i + 1) a

-- The loop over what read delivers; it ends with nothing, or a failure.
unfoldable pub read_output : (pieces : List (List ℕ)) → Printed → Option Printed
read_output [] o = some o
read_output ([] ∷ pieces) o = some o
read_output ((c ∷ cs) ∷ pieces) o = put_bytes (c ∷ cs) o.buf_end o.buf >>= λ a.
    read_output pieces
      (record { buf = resize a (a.room + length (c ∷ cs)); buf_end = o.buf_end + length (c ∷ cs) })

-- isspace
abbrev pub is_space_byte : ℕ → Bool
is_space_byte c = (c == 32) || (leb 9 c && leb c 13)

abbrev pub byte_in : Slot ℕ → Option ℕ
byte_in (item c) = some c
byte_in _ = none

-- The loop over the bytes of buf, `count` of them from `i` on, and the null behind what is copied.
unfoldable pub copy_bytes :
    (count i : ℕ) → (buf response : Slots ℕ) → (response_index : ℕ) → Option (Slots ℕ)
copy_bytes zero i buf response response_index = assign response response_index (item 0)
copy_bytes (suc count) i buf response response_index = do
  c ← byte_in (buf.slot i)
  let kept : Option (Slots ℕ) = assign response response_index (item c) >>= λ response.
      copy_bytes count (i + 1) buf response (response_index + 1)
  let passed = copy_bytes count (i + 1) buf response response_index
  if not (is_space_byte c) then kept else passed

pub data ContentType : Type 0 where
  content_type : (response : Slots ℕ) → ContentType
  no_type : ContentType
  exits : ContentType
  fault : ContentType

abbrev pub type_of : Option (Slots ℕ) → ContentType
type_of none = fault
type_of (some response) = content_type response

-- The status of the program: waitpid fails, or the program has succeeded or not.
abbrev pub type_by_status : Option Bool → Printed → ContentType
type_by_status none o = exits
type_by_status (some false) o = no_type
type_by_status (some true) o = type_of (copy_bytes o.buf_end 0 o.buf (fresh (o.buf_end + 1)) 0)

abbrev pub with_output : Option Printed → Option Bool → ContentType
with_output none status = fault
with_output (some o) status = type_by_status status o

-- `started` tells if there is a pipe and a process.
unfoldable pub get_content_type :
    (started : Bool) → (pieces : List (List ℕ)) → (status : Option Bool) → ContentType
get_content_type started pieces status =
    let begun : Printed = record { buf = fresh init_buf_size; buf_end = 0 } in
    if started then with_output (read_output pieces begun) status else exits
