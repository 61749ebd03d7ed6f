-- ===== src/Server/Respond/Replies.antt =====
-- What handle of lab5-src/server.c sends, from the bytes of the request on.
use cs.Common.{
  All, ◌-◌, ◌>>=◌, after_some, after_none, ℕ, ◌+◌, ◌≤◌, ◌<◌, ◌≡◌, refl, ap, ◌∙◌, inl, inr, false,
  true, List, [], ◌∷◌, ◌++◌, Option, Option-cases, none, some, length, take, length-take_of_le,
  codes, decimal, arith,
}
use cs.Server.Buffer.{Buffer, append}
use cs.Server.Messages.{Response, crlf, string_length, response_string}
use cs.Server.Path.{starts_with, root, served_uri, revised_path-Yields}
use cs.Server.Request.Words.{IsLetter, IsWord, letters}
use cs.Server.Request.Received.{
  Written, IsWritten, written_lines, request_text, index_uri, receive-request_text,
}
use cs.Server.Directory.{Info, Stat, Sent, sent, sent_of}
use cs.Server.Respond.Strings.{no_null, string_length-no_null}
use cs.Server.Respond.Files.{head_text, read_image-some, file_response-image}
use cs.Server.Respond.{
  write_bytes, Found, file, reply_headers, file_response, file_reply, reply_for, reply_at,
  parse_respond, answered, answer, handle,
}

-- The whole response to a path where nothing is.
abbrev pub not_found_text : List ℕ
not_found_text =
    codes "HTTP/1.1 404 Not Found"
    ++ (crlf
        ++ (codes "Content-Type: text/plain"
            ++ (crlf
                ++ (codes "Connection: close"
                    ++ (crlf
                        ++ (codes "Content-Length: 13"
                            ++ (crlf ++ (crlf ++ (codes "404 Not Found" ++ crlf)))))))))

abbrev not_found_reply : Response
not_found_reply = record {
  http_version = codes "HTTP/1.1";
  status_code = 404;
  headers = reply_headers (codes "text/plain") (codes "13");
  message_body = codes "404 Not Found" ++ (0 ∷ []);
}

letters-no_null : (w : List ℕ) → All IsLetter w → no_null w ≡ true
letters-no_null [] h = refl
letters-no_null (c ∷ cs) h = ground (arith, letters-no_null cs h.1, h.0)

word-no_null : (w : List ℕ) → IsWord w → no_null w ≡ true
word-no_null w h = letters-no_null w (letters w h)

module _ (files : List ℕ → Found) (stat : List ℕ → Stat) (readdir : List ℕ → Option (List (List ℕ)))
    (qsort : List Info → List Info) (atoi : List ℕ → ℕ)
    (reads : (n : ℕ) → atoi (decimal n) ≡ n) where
  -- The path that a URI leads to is looked up.
  parse_respond-reply_for :
      (version uri : List ℕ)
      → parse_respond files stat readdir qsort atoi version uri
        ≡ reply_for files stat readdir qsort atoi version
            (root ++ served_uri uri)
            (files (root ++ served_uri uri))
  unfolding parse_respond
  parse_respond-reply_for version uri =
      ap (reply_at files stat readdir qsort atoi version) (revised_path-Yields uri).1

  -- What is sent for an image at the path.
  image-sent :
      (version uri content_type bytes : List ℕ)
      → files (root ++ served_uri uri) ≡ file (some content_type) bytes
      → starts_with (codes "image") content_type ≡ true
      → no_null version ≡ true
      → no_null content_type ≡ true
      → 2 ≤ length bytes
      → (behind : List ℕ) × (parse_respond files stat readdir qsort atoi version uri
          ≡ sent (head_text atoi version content_type (length bytes) ++ (bytes ++ behind)))
        × (length behind ≤ 3)
  unfolding file_reply
  image-sent version uri content_type bytes there image v c two =
      let (room, loaded) =
        read_image-some bytes (record { text = []; capacity = 10240 }) (omega arith) in
      let (n, small, response) =
        file_response-image files stat readdir qsort atoi reads version content_type bytes v c
          two in
      let replied : file_reply files stat readdir qsort atoi version content_type bytes
          ≡ some (
              head_text atoi version content_type (length bytes)
              ++ (bytes ++ take n (crlf ++ (0 ∷ [])))) =
        rw image (after_some _ loaded response) in
      (
        take n (crlf ++ (0 ∷ [])),
        parse_respond-reply_for version uri
            ∙ ap (reply_for files stat readdir qsort atoi version (root ++ served_uri uri)) there
            ∙ ap sent_of replied,
        omega (arith, length-take_of_le n (crlf ++ (0 ∷ [])) (omega (arith, small))),
      )

  -- A file that is no image and has no null in it: its bytes are measured as a string, past their end.
  text-faults :
      (version content_type bytes : List ℕ)
      → string_length bytes ≡ none
      → file_response files stat readdir qsort atoi version content_type bytes (length bytes) ≡ none
  unfolding file_response
  text-faults version content_type bytes open_end =
      let count = append (record { text = []; capacity = length bytes }) (decimal (length bytes)) in
      elim (Option-cases count) [ inl e ↦ after_none _ e | inr (m, e) ↦ after_some _ e (made m) ]
    where
      reply : Buffer → Response
      reply m = record {
        http_version = version;
        status_code = 200;
        headers = reply_headers content_type m.text;
        message_body = bytes;
      }

      made :
          (m : Buffer)
          → (response_string atoi (reply m) >>= λ to_string.
              string_length (to_string.text ++ (0 ∷ [])) >>= λ string.
              string_length bytes >>= λ body.
              write_bytes files stat readdir qsort atoi to_string.text
                (string + length bytes + 1 - body))
            ≡ none
      made m = elim (Option-cases (response_string atoi (reply m))) [
        | inl e ↦ after_none _ e
        | inr (t, e) ↦ after_some _ e (elim (Option-cases (string_length (t.text ++ (0 ∷ [])))) [
          | inl k ↦ after_none _ k
          | inr (n, k) ↦ after_some _ k (after_none _ open_end)
        ])
      ]

  text-fault :
      (version uri content_type bytes : List ℕ)
      → files (root ++ served_uri uri) ≡ file (some content_type) bytes
      → starts_with (codes "image") content_type ≡ false
      → string_length bytes ≡ none
      → parse_respond files stat readdir qsort atoi version uri ≡ Sent.fault
  unfolding file_reply
  text-fault version uri content_type bytes there other open_end =
      let replied : file_reply files stat readdir qsort atoi version content_type bytes ≡ none =
        rw other (text-faults version content_type bytes open_end) in
      parse_respond-reply_for version uri
      ∙ ap (reply_for files stat readdir qsort atoi version (root ++ served_uri uri)) there
      ∙ ap sent_of replied

  -- A written request comes to parse_respond.
  handle-parse_respond :
      (fuel : ℕ) (w : Written) (rest : List ℕ)
      → IsWritten w
      → length (written_lines w) < fuel
      → handle files stat readdir qsort atoi fuel (request_text w rest)
        ≡ answered (parse_respond files stat readdir qsort atoi w.version (index_uri w.uri))
  unfolding handle
  handle-parse_respond fuel w rest h lt =
      let (headers, e, _) = receive-request_text fuel w rest h lt in
      ap (answer files stat readdir qsort atoi) e

  -- The path in the file system that a written request names.
  abbrev pub path_of : Written → List ℕ
  path_of w = root ++ served_uri (index_uri w.uri)

  -- A written request for an image of at least two bytes gets the head of a response of status 200
  -- with its type and length, and the bytes of the image, with at most three bytes behind them.
  pub handle-image :
      (fuel : ℕ) (w : Written) (rest content_type bytes : List ℕ)
      → IsWritten w
      → length (written_lines w) < fuel
      → files (path_of w) ≡ file (some content_type) bytes
      → starts_with (codes "image") content_type ≡ true
      → no_null content_type ≡ true
      → 2 ≤ length bytes
      → (behind : List ℕ) × (handle files stat readdir qsort atoi fuel (request_text w rest)
          ≡ answered
              (sent (head_text atoi w.version content_type (length bytes) ++ (bytes ++ behind))))
        × (length behind ≤ 3)
  handle-image fuel w rest content_type bytes h lt there image c two =
      let (behind, e, small) =
        image-sent w.version (index_uri w.uri) content_type bytes there image
          (word-no_null w.version h.version) c two in
      (behind, handle-parse_respond fuel w rest h lt ∙ ap answered e, small)

  -- A written request for a file that is no image and has no null in it cannot be answered: strlen
  -- runs past the end of its bytes.
  pub handle-text_fault :
      (fuel : ℕ) (w : Written) (rest content_type bytes : List ℕ)
      → IsWritten w
      → length (written_lines w) < fuel
      → files (path_of w) ≡ file (some content_type) bytes
      → starts_with (codes "image") content_type ≡ false
      → no_null bytes ≡ true
      → handle files stat readdir qsort atoi fuel (request_text w rest) ≡ answered Sent.fault
  handle-text_fault fuel w rest content_type bytes h lt there other clean =
      handle-parse_respond fuel w rest h lt
      ∙ ap answered (
          text-fault w.version (index_uri w.uri) content_type bytes there other
            (string_length-no_null bytes clean))
