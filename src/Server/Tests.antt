-- ===== src/Server/Tests.antt =====
-- The theorems about lab5-src/http_messages.c, socket.c, misc.c and server.c at concrete inputs, and runs.
use cs.Common.{
  zero, suc, length, ◌<◌, ℕ, List, false, true, ◌≡◌, refl, [], ◌∷◌, ◌++◌, none, some, codes,
  digits_value, same_text, decimal, arith,
}
use cs.Common.Slots.{Slots}
use cs.Server.ContentType.{content_type, get_content_type}
use cs.Server.ContentType.Copied.{IsText, get_content_type-IsText}
use cs.Server.Reader.{socket_read_line, read_from, finish}
use cs.Server.Reader.Lines.{ahead, socket_read_line-ahead}
use cs.Server.Reasons.{status_reason}
use cs.Server.Listing.{FileLink, header_text, first_size, double_until, generate_dir_listing}
use cs.Server.Listing.Filled.{
  listing_text, generate_dir_listing-Yields, generate_dir_listing_overrun,
}
use cs.Server.Path.{root, served_uri, revised_path, revised_path-Yields}
use cs.Server.Messages.{Response, response_string}
use cs.Server.Messages.Rendered.{Yields, response_text, told_length, response_string_lem}

abbrev greeting : Response
greeting = record {
  http_version = codes "HTTP/1.1";
  status_code = 200;
  headers =
      (record { key = some (codes "Content-Length"); value = some (codes "2") })
      ∷ (record { key = none; value = some (codes "x") })
      ∷ [];
  message_body = codes "hi!";
}

greeting_told : told_length (digits_value 0) greeting.headers 0 ≡ 2
unfolding same_text digits_value
greeting_told = refl

response_string_lem_example :
    Yields (response_string (digits_value 0) greeting) (response_text (digits_value 0) greeting)
response_string_lem_example =
    response_string_lem (digits_value 0) greeting (omega arith) (omega (arith, greeting_told))
      (λ e. absurd (omega (arith, e, greeting_told)))

greeting_shown :
    response_text (digits_value 0) greeting
    ≡ codes "HTTP/1.1 200 OK"
      ++ (13 ∷ 10 ∷ [])
      ++ codes "Content-Length: 2"
      ++ (13 ∷ 10 ∷ 13 ∷ 10 ∷ [])
      ++ codes "hi"
      ++ (13 ∷ 10 ∷ [])
unfolding decimal status_reason same_text digits_value
greeting_shown = refl

-- A request line longer than the first buffer, with more behind it.
abbrev incoming : List ℕ
incoming = codes "GET /index.html HTTP/1.1" ++ (13 ∷ 10 ∷ []) ++ codes "Host"

socket_read_line-ahead_example : socket_read_line incoming ≡ some (ahead false incoming)
socket_read_line-ahead_example = socket_read_line-ahead incoming

incoming_shown :
    socket_read_line incoming
    ≡ some (some (codes "GET /index.html HTTP/1.1" ++ (13 ∷ 10 ∷ [])), codes "Host")
unfolding socket_read_line read_from finish
incoming_shown = refl

abbrev files : List FileLink
files = record { display_name = codes "a"; url = codes "/a" } ∷ []

short_fits : length (header_text (codes "/docs")) < first_size (codes "/docs")
unfolding first_size double_until
short_fits = omega arith

generate_dir_listing-Yields_example :
    Yields (generate_dir_listing (codes "/docs") files) (listing_text (codes "/docs") files)
generate_dir_listing-Yields_example = generate_dir_listing-Yields (codes "/docs") files short_fits

-- A name of `n` bytes.
abbrev long_name : ℕ → List ℕ
long_name zero = []
long_name (suc n) = b'a' ∷ long_name n

generate_dir_listing_overrun_example : generate_dir_listing (long_name 500) files ≡ none
generate_dir_listing_overrun_example =
    generate_dir_listing_overrun (long_name 500) files (omega arith) (omega arith)

revised_path-Yields_example :
    Yields (revised_path (codes "/index.html")) (root ++ served_uri (codes "/index.html"))
revised_path-Yields_example = revised_path-Yields (codes "/index.html")

path_shown : root ++ served_uri (codes "/index.html") ≡ codes "./http-root-dir/htdocs/index.html"
path_shown = refl

-- What file prints of a text, in two pieces.
abbrev pieces : List (List ℕ)
pieces = codes "text/plain; char" ∷ (codes "set=us-ascii" ++ (10 ∷ [])) ∷ []

get_content_type-IsText_example :
    (response : Slots ℕ) × (get_content_type true pieces (some true) ≡ content_type response)
    × IsText response (codes "text/plain;charset=us-ascii")
get_content_type-IsText_example =
    get_content_type-IsText pieces ((omega arith, omega arith), ((omega arith, omega arith), tt))
