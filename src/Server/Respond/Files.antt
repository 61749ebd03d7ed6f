-- ===== src/Server/Respond/Files.antt =====
-- The response to a file in parse_respond of lab5-src/server.c.
use mathlib.Core.List.{append_assoc}
use cs.Common.{
  take-past, take-append, after_some, ℕ, ◌+◌, ◌-◌, ◌*◌, ◌≤◌, ◌<◌, ◌≡◌, refl, ap, subst, ◌∙◌, inl,
  inr, Bool-cases, true, List, [], ◌∷◌, ◌++◌, Option, Option-cases, some, length, length-append,
  take, codes, same_text, decimal, decimal_onto, length-decimal_lt, leb, lt→ltb, ◌==◌, arith,
}
use cs.Server.Buffer.{Buffer, resize, append-some}
use cs.Server.Reasons.{status_reason}
use cs.Server.Messages.{Response, crlf, string_length, response_string}
use cs.Server.Messages.Rendered.{
  Yields, status_text, header_lines, response_text, told_length, response_string_lem,
}
use cs.Server.Directory.{Info, Stat}
use cs.Server.Respond.Strings.{
  no_null, no_null-append, no_null-decimal, string_length-past, string_length-within,
  string_length-none,
}
use cs.Server.Respond.{Found, put_byte, read_image, reply_headers, write_bytes, file_response}

-- The image loop keeps room for one byte more, and leaves the bytes with a null behind them.
pub read_image-some :
    (bytes : List ℕ) (b : Buffer)
    → length b.text < b.capacity
    → (room : ℕ) × (read_image bytes b
        ≡ some (record { text = b.text ++ (bytes ++ (0 ∷ [])); capacity = room }))
unfolding read_image put_byte
read_image-some [] b h = (b.capacity, rw (lt→ltb _ _ h) refl)
read_image-some (c ∷ bytes) b h =
    let b1 : Buffer = record b { text = b.text ++ (c ∷ []) } in
    let size = length-append b.text (c ∷ []) in
    let flat = append_assoc b.text (c ∷ []) (bytes ++ (0 ∷ [])) in
    elim (Bool-cases (length (b.text ++ (c ∷ [])) == b.capacity)) [
      | inl full ↦
          let (room, e) =
            read_image-some bytes (resize b1 (b.capacity * 2)) (ground (arith, size)) in
          (
            room,
            rw (lt→ltb _ _ h)
                (rw full (e ∙ ap (λ t. some (record { text = t; capacity = room })) flat)),
          )
      | inr space ↦
          let (room, e) = read_image-some bytes b1 (ground (arith, size)) in
          (
            room,
            rw (lt→ltb _ _ h)
                (rw space (e ∙ ap (λ t. some (record { text = t; capacity = room })) flat)),
          )
    ]

module _ (atoi : List ℕ → ℕ) where
  -- The lines in front of the body.
  abbrev pub head_text : (version content_type : List ℕ) → (message_length : ℕ) → List ℕ
  head_text version content_type n =
      status_text version 200
      ++ (header_lines atoi (reply_headers content_type (decimal n)) ++ crlf)

  -- The response with its body.
  abbrev pub file_text : (version content_type bytes : List ℕ) → List ℕ
  file_text version content_type bytes =
      head_text version content_type (length bytes) ++ (bytes ++ crlf)

  abbrev reply : (version content_type body : List ℕ) → (n : ℕ) → Response
  reply version content_type body n = record {
    http_version = version;
    status_code = 200;
    headers = reply_headers content_type (decimal n);
    message_body = body;
  }

  told_reply :
      (version content_type body : List ℕ) (n : ℕ)
      → told_length atoi (reply version content_type body n).headers 0 ≡ atoi (decimal n)
  unfolding same_text
  told_reply version content_type body n = refl

  no_null-head_text :
      (version content_type : List ℕ) (n : ℕ)
      → no_null version ≡ true
      → no_null content_type ≡ true
      → no_null (head_text version content_type n) ≡ true
  unfolding decimal decimal_onto status_reason
  no_null-head_text version content_type n v c =
      let typed = codes "Content-Type" ++ (codes ": " ++ (content_type ++ crlf)) in
      let sized = codes "Content-Length" ++ (codes ": " ++ (decimal n ++ crlf)) in
      let closed = codes "Connection" ++ (codes ": " ++ (codes "close" ++ crlf)) in
      no_null-append (status_text version 200)
        (header_lines atoi (reply_headers content_type (decimal n)) ++ crlf)
        (no_null-append version _ v refl)
        (no_null-append (header_lines atoi (reply_headers content_type (decimal n))) crlf
          (no_null-append typed (closed ++ (sized ++ [])) (no_null-append content_type crlf c refl)
            (no_null-append sized [] (no_null-append (decimal n) crlf (no_null-decimal n) refl)
              refl))
          refl)

  -- What response_string makes of the bytes and what is allocated behind them.
  module _ (reads : (n : ℕ) → atoi (decimal n) ≡ n) where
    rendered :
        (version content_type bytes more : List ℕ)
        → 1 ≤ length bytes
        → Yields
            (response_string atoi (reply version content_type (bytes ++ more) (length bytes)))
            (file_text version content_type bytes)
    rendered version content_type bytes more some_bytes =
        let n = length bytes in
        let r = reply version content_type (bytes ++ more) n in
        let told = told_reply version content_type (bytes ++ more) n ∙ reads n in
        let whole : take n (bytes ++ more) ≡ bytes = take-append bytes more in
        let flat : response_text atoi r ≡ file_text version content_type bytes =
          ap
            (λ k.
              status_text version 200
              ++ (header_lines atoi r.headers ++ (crlf ++ (take k (bytes ++ more) ++ crlf))))
            told
          ∙ rw whole (simp append_assoc) in
        subst (Yields (response_string atoi r)) flat (
          response_string_lem atoi r (omega arith) (omega (arith, told, length-append bytes more))
            (λ zero_told. absurd (omega (arith, told, zero_told, some_bytes))))

null_at : string_length (0 ∷ []) ≡ some 0
unfolding string_length
null_at = refl

null_behind : string_length (crlf ++ (0 ∷ [])) ≡ some 2
unfolding string_length
null_behind = refl

-- A prefix of bytes is written with those behind it that the size has room for.
write_bytes-some :
    (front behind : List ℕ) (n : ℕ) (text : List ℕ)
    → text ++ (0 ∷ []) ≡ front ++ behind
    → n ≤ length behind
    → leb (length front + n) (length text + 1) ≡ true
write_bytes-some front behind n text e h =
    ground (arith, length-append text (0 ∷ []), length-append front behind, ap length e)

module _ (files : List ℕ → Found) (stat : List ℕ → Stat) (readdir : List ℕ → Option (List (List ℕ)))
    (qsort : List Info → List Info) (atoi : List ℕ → ℕ) (reads : (n : ℕ) → atoi (decimal n) ≡ n)
    (version content_type bytes : List ℕ) where
  abbrev pub respond : List ℕ → Option (List ℕ)
  respond body =
      file_response files stat readdir qsort atoi version content_type body (length bytes)

  abbrev pub head : List ℕ
  head = head_text atoi version content_type (length bytes)

  -- What is sent behind the head and the bytes: a part of the line end and its null.
  abbrev pub sent_behind : (n : ℕ) → List ℕ
  sent_behind n = take n (crlf ++ (0 ∷ []))

  -- The bytes that file_response sends, by the lengths that strlen tells.
  file_response-lengths :
      (more : List ℕ) (string body n : ℕ)
      → 2 ≤ length bytes
      → string_length (file_text atoi version content_type bytes ++ (0 ∷ [])) ≡ some string
      → string_length (bytes ++ more) ≡ some body
      → string + length bytes + 1 - body ≡ length (head ++ bytes) + n
      → n ≤ 3
      → respond (bytes ++ more) ≡ some (head ++ (bytes ++ sent_behind n))
  unfolding file_response
  file_response-lengths more string body n two whole part size le =
      let text = file_text atoi version content_type bytes in
      let (room, e, fits) = rendered atoi reads version content_type bytes more (omega arith) in
      let flat : text ++ (0 ∷ []) ≡ (head ++ bytes) ++ (crlf ++ (0 ∷ [])) = simp append_assoc in
      let wide = write_bytes-some (head ++ bytes) (crlf ++ (0 ∷ [])) n text flat (omega arith) in
      let cut : take (length (head ++ bytes) + n) (text ++ (0 ∷ []))
          ≡ head ++ (bytes ++ take n (crlf ++ (0 ∷ []))) =
        ap (take (length (head ++ bytes) + n)) flat
        ∙ take-past (head ++ bytes) (crlf ++ (0 ∷ [])) n
        ∙ append_assoc head bytes (take n (crlf ++ (0 ∷ []))) in
      after_some _
        (append-some (record { text = []; capacity = length bytes }) (decimal (length bytes))
          (omega (arith, length-decimal_lt (length bytes) two)))
        (after_some _ e (
          after_some _ whole (
            after_some _ part
              (ap (write_bytes files stat readdir qsort atoi text) size ∙ rw wide (ap some cut)))))

  -- An image of at least two bytes is sent behind its head, whatever stands in it, with at most three
  -- bytes of line end and null behind it.
  pub file_response-image :
      no_null version ≡ true
      → no_null content_type ≡ true
      → 2 ≤ length bytes
      → (n : ℕ) × (n ≤ 3) × (respond (bytes ++ (0 ∷ [])) ≡ some (head ++ (bytes ++ sent_behind n)))
  file_response-image v c two =
      let clean = no_null-head_text atoi version content_type (length bytes) v c in
      let text = file_text atoi version content_type bytes in
      let flat : text ++ (0 ∷ []) ≡ head ++ (bytes ++ (crlf ++ (0 ∷ []))) = simp append_assoc in
      let size = length-append head bytes in
      elim (Option-cases (string_length bytes)) [
        | inr (k, k_end) ↦
            let inside = string_length-within bytes (crlf ++ (0 ∷ [])) k k_end in
            let body = (string_length-within bytes (0 ∷ []) k k_end).0 in
            let whole = ap string_length flat ∙ string_length-past head _ k clean inside.0 in
            (
              1,
              omega arith,
              file_response-lengths (0 ∷ []) (length head + k) k 1 two whole body
                  (omega (arith, size, inside.1)) (omega arith),
            )
        | inl open_end ↦
            let full = string_length-none bytes open_end in
            let body = string_length-past bytes (0 ∷ []) 0 full null_at in
            let inside = string_length-past bytes (crlf ++ (0 ∷ [])) 2 full null_behind in
            let whole = ap string_length flat ∙ string_length-past head _ _ clean inside in
            (
              3,
              omega arith,
              file_response-lengths (0 ∷ []) _ _ 3 two whole body (omega (arith, size))
                  (omega arith),
            )
      ]
