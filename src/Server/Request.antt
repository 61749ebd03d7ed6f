-- ===== src/Server/Request.antt =====
-- handle of lab5-src/server.c up to the request that it makes of the bytes that come in. `fault` is
-- the use of memory that was not set, of a null pointer, or past the end of a buffer; `out_of_fuel`
-- has no counterpart in the code.
pub mod Words
pub mod Lines
pub mod Received
pub mod Ends
use cs.Common.{
  c_string, ◌>>=◌, ℕ, zero, suc, ◌+◌, ◌-◌, Bool, true, false, List, [], ◌∷◌, ◌++◌, Option, none,
  some, length, take, ltb, ◌==◌, if◌then◌else◌, same_text, codes,
}
use cs.Common.Slots.{Slot, garbage, null, item}
use cs.Server.Buffer.{Buffer, append}
use cs.Common.Arrays.{Array, new_array, push, one_more}
use cs.Server.Messages.{Header}
use cs.Server.Reader.{socket_read_line}

-- http_request; the message body and the query are empty.
pub record Request : Type 0 where
  pub method : List ℕ
  pub request_uri : List ℕ
  pub http_version : List ℕ
  pub headers : Array Header
  pub message_body : List ℕ
  pub query : List ℕ

-- The tokens that strtok finds one after the other, split at a byte; `word` is the one begun.
abbrev pub put_word : List ℕ → List (List ℕ) → List (List ℕ)
put_word [] words = words
put_word (c ∷ word) words = (c ∷ word) ∷ words

unfoldable pub split_words : (delimiter : ℕ) → (word : List ℕ) → List ℕ → List (List ℕ)
split_words delimiter word [] = put_word word []
split_words delimiter word (c ∷ cs) =
    let next = split_words delimiter [] cs in
    let more = split_words delimiter (word ++ (c ∷ [])) cs in
    if c == delimiter then put_word word next else more

abbrev pub tokens : List ℕ → List (List ℕ)
tokens line = split_words 32 [] line

-- What reading the lines of a request comes to.
pub data Reading : Type 0 where
  lines : Array (List ℕ) → (rest : List ℕ) → Reading
  fault : Reading
  out_of_fuel : Reading

abbrev pub with_line : Option (Option (List ℕ) × List ℕ) → (List ℕ → List ℕ → Reading) → Reading
with_line (some (some line, rest)) f = f line rest
with_line _ f = fault

abbrev pub with_array : Option (Array (List ℕ)) → (Array (List ℕ) → Reading) → Reading
with_array none f = fault
with_array (some a) f = f a

-- The loop that reads lines until one is empty, and saves them without their line ends.
unfoldable pub read_lines : (fuel : ℕ) → Array (List ℕ) → List ℕ → Reading
read_lines zero a incoming = out_of_fuel
read_lines (suc fuel) a incoming = with_line (socket_read_line incoming) λ line rest.
    let text = c_string line in
    let more =
      with_array (push one_more a (take (length text - 2) text)) λ a. read_lines fuel a rest in
    if ltb 2 (length text) then more else lines a rest

-- method, raw_path and http_version: the first three tokens; garbage where there is none.
pub record Picked : Type 0 where
  pub method : Slot (List ℕ)
  pub raw_path : Slot (List ℕ)
  pub http_version : Slot (List ℕ)

abbrev pub pick : (count : ℕ) → List ℕ → Picked → Picked
pick zero p picked = record picked { method = item p }
pick (suc zero) p picked = record picked { raw_path = item p }
pick (suc (suc zero)) p picked = record picked { http_version = item p }
pick _ p picked = picked

unfoldable pub pick_words : (count : ℕ) → List (List ℕ) → Picked → Picked
pick_words count [] picked = picked
pick_words count (p ∷ words) picked = pick_words (count + 1) words (pick count p picked)

-- The text in a slot; reading a pointer that was not set is a fault.
abbrev pub text_of : Slot (List ℕ) → Option (List ℕ)
text_of (item text) = some text
text_of _ = none

-- "index.html" behind a path that is "/".
unfoldable pub index_path : List ℕ → Option (List ℕ)
index_path raw_path =
    if same_text raw_path (codes "/")
    then (append (record { text = raw_path; capacity = length raw_path + 10 + 1 })
          (codes "index.html")
        >>= λ b. some b.text)
    else some raw_path

-- The value of a header line: its first token behind the key that is not "Basic".
unfoldable pub find_value : List (List ℕ) → Slot (List ℕ)
find_value [] = garbage
find_value (p ∷ words) =
    let rest = find_value words in if same_text p (codes "Basic") then rest else item p

-- key and value of a header line; the last byte of the key, its colon, is cut off.
abbrev pub header_of : Slot (List ℕ) → Slot (List ℕ) → Option Header
header_of key value = do
  key ← text_of key
  value ← text_of value
  some (record { key = some (take (length key - 1) key); value = some value })

abbrev pub split_header : List (List ℕ) → Option Header
split_header [] = header_of garbage garbage
split_header (key ∷ words) = header_of (item key) (find_value words)

-- A line behind the first one, into the headers.
unfoldable pub add_line : Slot (List ℕ) → Array Header → Option (Array Header)
add_line slot headers = do
  line ← text_of slot
  head ← split_header (tokens line)
  push one_more headers head

-- The loop over the lines from `i` on, `count` of them; line 0 is passed over.
unfoldable pub add_lines : (count i : ℕ) → Array (List ℕ) → Array Header → Option (Array Header)
unfolding add_line
add_lines zero i general_lines headers = some headers
add_lines (suc count) i general_lines headers =
    let next = add_lines count (i + 1) general_lines headers in
    let added : Option (Array Header) =
      add_line (general_lines.items.slot i) headers >>= add_lines count (i + 1) general_lines in
    if i == 0 then next else added

-- The request that the lines make. print_request reads all three words of the first line.
unfoldable pub request_of : Array (List ℕ) → Option Request
request_of general_lines = do
  first_line ← text_of (general_lines.items.slot 0)
  let none_set : Picked = record { method = garbage; raw_path = garbage; http_version = garbage }
  let picked = pick_words 0 (tokens first_line) none_set
  raw_path ← text_of picked.raw_path
  raw_path ← index_path raw_path
  headers ← add_lines general_lines.num 0 general_lines (new_array 1)
  method ← text_of picked.method
  http_version ← text_of picked.http_version
  some (record {
    method = method;
    request_uri = raw_path;
    http_version = http_version;
    headers = headers;
    message_body = [];
    query = [];
  })

-- A request, with the bytes behind it.
pub data Receipt : Type 0 where
  received : Request → (rest : List ℕ) → Receipt
  fault : Receipt
  out_of_fuel : Receipt

abbrev pub receipt_of : Option Request → List ℕ → Receipt
receipt_of none rest = fault
receipt_of (some request) rest = received request rest

unfoldable pub read_request : Reading → Receipt
unfolding request_of
read_request (lines general_lines rest) = receipt_of (request_of general_lines) rest
read_request fault = fault
read_request out_of_fuel = out_of_fuel

-- handle, up to parse_respond.
unfoldable pub receive : (fuel : ℕ) → List ℕ → Receipt
unfolding read_request
receive fuel incoming = read_request (read_lines fuel (new_array 1) incoming)
