-- ===== src/Server/Respond/Tests.antt =====
-- The theorems about handle of lab5-src/server.c and handle_directory of handle_dir.c at concrete
-- requests.
use cs.Common.{
  ℕ, ◌≤◌, ◌≡◌, ◌≢◌, refl, inr, Bool, true, false, not, ◌&&◌, List, [], ◌∷◌, ◌++◌, All, Option, none,
  some, length, codes, decimal, decimal_onto, digits_value, digits_value-decimal, ltb, ◌==◌,
  get_elem?, arith,
}
use cs.Common.Arrays.{Array, IsArray}
use cs.Server.Messages.{Header}
use cs.Server.Messages.Rendered.{response_text}
use cs.Server.Request.{Receipt, received, receive, split_words}
use cs.Server.Request.Words.{IsLetter}
use cs.Server.Request.Lines.{pair_headers}
use cs.Server.Request.Received.{
  Written, IsWritten, request_text, request_from, receive-request_text,
}
use cs.Server.Request.Ends.{receive-ends}
use cs.Server.Directory.{Info, Stat, Sent, sent, handle_directory}
use cs.Server.Directory.Entries.{
  IsShown, HasRoot, directory_reply, infos_of, sorted, handle_directory-sent,
  handle_directory-fault,
}
use cs.Server.Respond.{Found, absent, file, handle, answered}
use cs.Server.Respond.Files.{head_text}
use cs.Server.Respond.Replies.{handle-image, handle-text_fault}

-- A text of letters, by a test.
abbrev is_letters : List ℕ → Bool
is_letters [] = true
is_letters (c ∷ cs) = not (c == 32) && not (c == 0) && not (c == 13) && ltb c 128 && is_letters cs

letters_of : (w : List ℕ) → is_letters w ≡ true → All IsLetter w
letters_of [] h = tt
letters_of (c ∷ cs) h =
    (((ground arith, (ground arith, ground arith, ground arith))), letters_of cs (ground arith))

-- GET /x.png, with one header.
abbrev image_request : Written
image_request = record {
  method = codes "GET";
  uri = codes "/x.png";
  version = codes "HTTP/1.1";
  pairs = (codes "Host", codes "a") ∷ [];
}

host-ne : codes "a" ≢ codes "Basic"
host-ne e = ground (arith, e)

image_request-IsWritten : IsWritten image_request
image_request-IsWritten = record {
  method = letters_of (codes "GET") refl;
  uri = letters_of (codes "/x.png") refl;
  version = letters_of (codes "HTTP/1.1") refl;
  pairs = ((letters_of (codes "Host") refl, letters_of (codes "a") refl, host-ne), tt);
}

receive-request_text_example :
    (headers : Array Header) × (receive 5 (request_text image_request (codes "more"))
      ≡ received (request_from image_request headers) (codes "more"))
    × IsArray headers (pair_headers image_request.pairs)
receive-request_text_example =
    receive-request_text 5 image_request (codes "more") image_request-IsWritten (omega arith)

receive-ends_example : receive 9 (codes "GET /") ≢ Receipt.out_of_fuel
receive-ends_example = receive-ends 9 (codes "GET /") (omega arith)

abbrev file_stat : Stat
file_stat = record {
  is_dir = false;
  size = 120;
  tm_year = 119;
  tm_mon = 3;
  tm_mday = 24;
  tm_hour = 18;
  tm_min = 5;
}

abbrev stat : List ℕ → Stat
stat path = file_stat

abbrev readdir : List ℕ → Option (List (List ℕ))
readdir path = some (codes "b" ∷ codes "a" ∷ [])

abbrev qsort : List Info → List Info
qsort files = files

abbrev atoi : List ℕ → ℕ
atoi = digits_value 0

abbrev nothing : List ℕ → Found
nothing path = absent

abbrev image : List ℕ → Found
image path = file (some (codes "image/png")) (137 ∷ 80 ∷ 0 ∷ 71 ∷ [])

abbrev text : List ℕ → Found
text path = file (some (codes "text/plain")) (codes "hello")

handle-image_example :
    (behind : List ℕ) × (handle image stat readdir qsort atoi 5 (request_text image_request [])
      ≡ answered (
          sent (
            head_text atoi (codes "HTTP/1.1") (codes "image/png") 4
            ++ ((137 ∷ 80 ∷ 0 ∷ 71 ∷ []) ++ behind))))
    × (length behind ≤ 3)
handle-image_example =
    handle-image image stat readdir qsort atoi digits_value-decimal 5 image_request []
      (codes "image/png") (137 ∷ 80 ∷ 0 ∷ 71 ∷ []) image_request-IsWritten (omega arith) refl refl
      refl (omega arith)

handle-text_fault_example :
    handle text stat readdir qsort atoi 5 (request_text image_request []) ≡ answered Sent.fault
handle-text_fault_example =
    handle-text_fault text stat readdir qsort atoi digits_value-decimal 5 image_request []
      (codes "text/plain") (codes "hello") image_request-IsWritten (omega arith) refl refl refl

file_stat-IsShown : IsShown file_stat
unfolding decimal decimal_onto
file_stat-IsShown = (inr (omega arith), omega arith)

docs-HasRoot : HasRoot (codes "./http-root-dir/htdocs/docs") (codes "docs")
unfolding split_words
docs-HasRoot = (omega arith, refl)

handle_directory-sent_example :
    handle_directory stat readdir qsort atoi
      (codes "HTTP/1.1")
      (codes "./http-root-dir/htdocs/docs")
    ≡ sent (
        response_text atoi (
          directory_reply (codes "HTTP/1.1") (codes "./http-root-dir/htdocs/docs") (
            sorted stat readdir qsort atoi (
              infos_of stat readdir qsort atoi
                (codes "./http-root-dir/htdocs/docs")
                (codes "docs")
                (codes "b" ∷ codes "a" ∷ [])))))
handle_directory-sent_example =
    handle_directory-sent stat readdir qsort atoi digits_value-decimal (codes "HTTP/1.1")
      (codes "./http-root-dir/htdocs/docs") (codes "docs") (codes "b" ∷ codes "a" ∷ []) refl
      docs-HasRoot (file_stat-IsShown, (file_stat-IsShown, tt))

root_parts : get_elem? (split_words 47 [] (codes "./http-root-dir/htdocs")) 3 ≡ none
unfolding split_words
root_parts = refl

handle_directory-fault_example :
    handle_directory stat readdir qsort atoi (codes "HTTP/1.1") (codes "./http-root-dir/htdocs")
    ≡ Sent.fault
handle_directory-fault_example =
    handle_directory-fault stat readdir qsort atoi (codes "HTTP/1.1")
      (codes "./http-root-dir/htdocs") (codes "b") (codes "a" ∷ []) refl (omega arith) root_parts
