-- ===== src/Server/Messages.antt =====
-- response_string of lab5-src/http_messages.c. The ints that hold lengths are numbers
-- without a bound: texts are taken to be far shorter than 2^31 bytes.
pub mod Rendered
use cs.Common.{
  ◌>>=◌, ℕ, zero, suc, ◌+◌, ◌-◌, ◌≤◌, ◌<◌, ◌≡◌, refl, Bool, List, [], ◌∷◌, ◌++◌, Option, none, some,
  length, ltb, leb, ◌==◌, if◌then◌else◌, codes, same_text, decimal, take,
}
use cs.Server.Buffer.{Buffer, duplicate, resize, append}
use cs.Server.Reasons.{status_reason}

-- A header, whose key or value may be NULL.
pub record Header : Type 0 where
  pub key : Option (List ℕ)
  pub value : Option (List ℕ)

-- message_body is the allocated bytes, which need not end in a null.
pub record Response : Type 0 where
  pub http_version : List ℕ
  pub status_code : ℕ
  pub headers : List Header
  pub message_body : List ℕ

abbrev pub crlf : List ℕ
crlf = 13 ∷ 10 ∷ []

-- strlen of allocated bytes: `none` if no null stands among them.
unfoldable pub string_length : List ℕ → Option ℕ
string_length [] = none
string_length (c ∷ cs) =
    let rest : Option ℕ = elim (string_length cs) [ none ↦ none | some n ↦ some (suc n) ] in
    if c == 0 then some 0 else rest

-- The status line; sprintf writes the code into a buffer of sizeof(int) bytes.
unfoldable pub status_line : List ℕ → ℕ → Option Buffer
status_line version status = do
  let b = duplicate version
  let room = length b.text + 4 + 2
  code ← append (record { text = []; capacity = 4 }) (decimal status)
  b ← append (resize b room) (codes " ")
  b ← append b code.text
  b ← append b (codes " ")
  let reason = status_reason status
  b ← append (resize b (length b.text + length reason + 3)) reason
  append b crlf

-- The room for the blank line, the body and the end.
unfoldable pub body_room : Buffer → ℕ → List ℕ → Option ℕ
body_room b content_length body =
    let whole : Option ℕ = elim (string_length body) [
      | none ↦ none
      | some n ↦ some (length b.text + 5 + n)
    ] in
    if content_length == 0 then whole else some (length b.text + 5 + content_length)

-- The bytes of the body and the line end behind them; reading past the body is a fault.
unfoldable pub add_body : Buffer → ℕ → List ℕ → Option Buffer
add_body b content_length body =
    if leb content_length (length body) then append b (take content_length body ++ crlf) else none

module _ (atoi : List ℕ → ℕ) where
  -- One header with key and value, and the content length if it tells it.
  unfoldable pub add_pair : Buffer → ℕ → List ℕ → List ℕ → Option (Buffer × ℕ)
  add_pair b content_length key value = do
    b ← append (resize b (length b.text + length key + length value + 5)) key
    b ← append b (codes ": ")
    b ← append b value
    b ← append b crlf
    some (b, if same_text key (codes "Content-Length") then atoi value else content_length)

  -- The loop over the headers; a header with a NULL in it is passed over.
  unfoldable pub add_headers : List Header → Buffer → ℕ → Option (Buffer × ℕ)
  unfolding add_pair
  add_headers [] b content_length = some (b, content_length)
  add_headers (h ∷ hs) b content_length = elim h.key [
    | none ↦ add_headers hs b content_length
    | some key ↦ elim h.value [
      | none ↦ add_headers hs b content_length
      | some value ↦ add_pair b content_length key value >>= λ done. add_headers hs done.0 done.1
    ]
  ]

  unfoldable pub response_string : Response → Option Buffer
  response_string r = do
    b ← status_line r.http_version r.status_code
    done ← add_headers r.headers b 0
    room ← body_room done.0 done.1 r.message_body
    b ← append (resize done.0 room) crlf
    add_body b done.1 r.message_body
