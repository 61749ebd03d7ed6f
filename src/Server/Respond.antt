-- ===== src/Server/Respond.antt =====
-- parse_respond and handle of lab5-src/server.c: from a request to the bytes that are sent. What is in
-- the file system, with the type that get_content_type tells of a file, is a parameter. The ints
-- that hold sizes are numbers without a bound: files are taken to be far shorter than 2^31 bytes.
pub mod Strings
pub mod Files
pub mod Replies
mod Tests
use cs.Common.{
  c_string, ◌>>=◌, ℕ, ◌+◌, ◌-◌, ◌*◌, List, [], ◌∷◌, ◌++◌, Option, none, some, length, take, ltb,
  leb, ◌==◌, codes, decimal, if◌then◌else◌,
}
use cs.Server.Buffer.{Buffer, resize, append}
use cs.Server.Messages.{Header, Response, string_length, response_string}
use cs.Server.Path.{starts_with, revised_path}
use cs.Server.Request.{Receipt, received, receive}
use cs.Server.Directory.{Info, Stat, Sent, sent_of, handle_directory}

-- What fopen, is_directory and get_content_type find at a path. The type is NULL if `file` fails.
pub data Found : Type 0 where
  absent : Found
  directory : Found
  file : (content_type : Option (List ℕ)) → (bytes : List ℕ) → Found

-- message_body[num] = ch
unfoldable pub put_byte : Buffer → ℕ → Option Buffer
put_byte b ch =
    if ltb (length b.text) b.capacity then some (record b { text = b.text ++ (ch ∷ []) }) else none

-- The loop that reads an image byte by byte, and the null behind it.
unfoldable pub read_image : List ℕ → Buffer → Option Buffer
read_image [] b = put_byte b 0
read_image (ch ∷ bytes) b = put_byte b ch >>= λ b.
    read_image bytes (if length b.text == b.capacity then resize b (b.capacity * 2) else b)

-- The headers of a response.
abbrev pub reply_headers : (content_type message_length : List ℕ) → List Header
reply_headers content_type message_length =
    record { key = some (codes "Content-Type"); value = some content_type }
    ∷ record { key = some (codes "Connection"); value = some (codes "close") }
    ∷ record { key = some (codes "Content-Length"); value = some message_length }
    ∷ []

-- Where handle ends: with what parse_respond sends, or before.
pub data Handled : Type 0 where
  answered : Sent → Handled
  fault : Handled
  out_of_fuel : Handled

module _ (files : List ℕ → Found) (stat : List ℕ → Stat) (readdir : List ℕ → Option (List (List ℕ)))
    (qsort : List Info → List Info) (atoi : List ℕ → ℕ) where
  -- socket_write of `size` bytes; beyond the string and its null the bytes were never set.
  abbrev pub write_bytes : (to_string : List ℕ) → (size : ℕ) → Option (List ℕ)
  write_bytes to_string size =
      if leb size (length to_string + 1) then some (take size (to_string ++ (0 ∷ []))) else none

  -- The response of status 200.
  unfoldable pub file_response :
      (version content_type message_body : List ℕ) → (message_length : ℕ) → Option (List ℕ)
  file_response version content_type message_body message_length = do
    msg_length ← append (record { text = []; capacity = message_length }) (decimal message_length)
    to_string ← response_string atoi (record {
      http_version = version;
      status_code = 200;
      headers = reply_headers content_type msg_length.text;
      message_body = message_body;
    })
    string ← string_length (to_string.text ++ (0 ∷ []))
    body ← string_length message_body
    write_bytes to_string.text (string + message_length + 1 - body)

  -- The response of status 404; the body is a string.
  unfoldable pub not_found_response : Option (List ℕ)
  not_found_response = do
    let tmp = length (codes "404 Not Found")
    message_length ← append (record { text = []; capacity = tmp }) (decimal tmp)
    to_string ← response_string atoi (record {
      http_version = codes "HTTP/1.1";
      status_code = 404;
      headers = reply_headers (codes "text/plain") message_length.text;
      message_body = codes "404 Not Found" ++ (0 ∷ []);
    })
    some (c_string to_string.text)

  -- A file: an image with a null behind it, any other one without.
  unfoldable pub file_reply : (version content_type bytes : List ℕ) → Option (List ℕ)
  file_reply version content_type bytes =
      let image : Option (List ℕ) =
        read_image bytes (record { text = []; capacity = 10240 }) >>= λ b.
        file_response version content_type b.text (length bytes) in
      if starts_with (codes "image") content_type
      then image
      else file_response version content_type bytes (length bytes)

  abbrev pub reply_for : (version path : List ℕ) → Found → Sent
  reply_for version path absent = sent_of not_found_response
  reply_for version path directory = handle_directory stat readdir qsort atoi version path
  reply_for version path (file none bytes) = Sent.fault
  reply_for version path (file (some content_type) bytes) =
      sent_of (file_reply version content_type bytes)

  abbrev pub reply_at : (version : List ℕ) → Option Buffer → Sent
  reply_at version none = Sent.fault
  reply_at version (some path) = reply_for version path.text (files path.text)

  unfoldable pub parse_respond : (version request_uri : List ℕ) → Sent
  parse_respond version request_uri = reply_at version (revised_path request_uri)

  abbrev pub answer : Receipt → Handled
  answer (received request rest) = answered (parse_respond request.http_version request.request_uri)
  answer Receipt.fault = Handled.fault
  answer Receipt.out_of_fuel = Handled.out_of_fuel

  -- One connection.
  unfoldable pub handle : (fuel : ℕ) → List ℕ → Handled
  handle fuel incoming = answer (receive fuel incoming)
