-- ===== src/Server/Messages/Rendered.antt =====
-- What response_string of lab5-src/http_messages.c returns, as one text.
use mathlib.Core.List.{append_assoc, append-nil}
use cs.Common.{
  length-decimal, length-take_of_le, ◌>>=◌, ℕ, ◌+◌, ◌≤◌, ◌<◌, ◌≡◌, refl, sym, ◌∙◌, ap, inl, inr,
  Bool-cases, ==_iff, List, [], ◌∷◌, ◌++◌, Option, none, some, length, length-append, leb, ◌==◌,
  if◌then◌else◌, codes, same_text, decimal, take, true, arith,
}
use cs.Server.Buffer.{Buffer, append-some, append_then}
use cs.Server.Reasons.{status_reason}
use cs.Server.Messages.{
  Header, Response, crlf, string_length, status_line, add_pair, add_headers, body_room, add_body,
  response_string,
}

-- The status line, and the line of a header.
abbrev pub status_text : List ℕ → ℕ → List ℕ
status_text version status =
    version ++ (codes " " ++ (decimal status ++ (codes " " ++ (status_reason status ++ crlf))))

abbrev pub pair_text : List ℕ → List ℕ → List ℕ
pair_text key value = key ++ (codes ": " ++ (value ++ crlf))

-- A buffer with this text and room for the null behind it.
abbrev pub Yields : Option Buffer → List ℕ → Type 0
Yields result text =
    (capacity : ℕ) × (result ≡ some (record { text = text; capacity = capacity }))
    × (length text < capacity)

status_line_lem :
    (version : List ℕ) (status : ℕ)
    → status < 1000
    → Yields (status_line version status) (status_text version status)
unfolding status_line
status_line_lem version status h =
    let small = length-decimal status h in
    let n = length version in
    let reason = status_reason status in
    let t1 = version ++ codes " " in
    let t2 = t1 ++ decimal status in
    let t3 = t2 ++ codes " " in
    let t4 = t3 ++ reason in
    let l1 = length-append version (codes " ") in
    let l2 = length-append t1 (decimal status) in
    let l3 = length-append t2 (codes " ") in
    let l4 = length-append t3 reason in
    let l5 = length-append t4 crlf in
    let flat : t4 ++ crlf ≡ status_text version status = simp append_assoc in
    (
      length t3 + length reason + 3,
      append_then _ _ _ (omega arith) (
          append_then _ _ _ (omega arith) (
            append_then _ _ _ (omega arith) (
              append_then _ _ _ (omega arith) (
                append_then _ _ _ (omega arith) (
                  append-some (record { text = t4; capacity = length t3 + length reason + 3 }) crlf
                    (omega arith)
                  ∙ ap (λ t. some (record { text = t; capacity = length t3 + length reason + 3 }))
                      flat))))),
      omega (arith, ap length flat),
    )

module _ (atoi : List ℕ → ℕ) where
  -- The lines of the headers that have both a key and a value, and the content length they tell.
  abbrev pub header_lines : List Header → List ℕ
  header_lines [] = []
  header_lines (h ∷ hs) = elim h.key [
    | none ↦ header_lines hs
    | some key ↦ elim h.value [
      | none ↦ header_lines hs
      | some value ↦ pair_text key value ++ header_lines hs
    ]
  ]

  abbrev pub length_if : List ℕ → List ℕ → ℕ → ℕ
  length_if key value told = if same_text key (codes "Content-Length") then atoi value else told

  abbrev pub told_length : List Header → ℕ → ℕ
  told_length [] told = told
  told_length (h ∷ hs) told = elim h.key [
    | none ↦ told_length hs told
    | some key ↦ elim h.value [
      | none ↦ told_length hs told
      | some value ↦ told_length hs (length_if key value told)
    ]
  ]

  add_pair_lem :
      (b : Buffer) (told : ℕ) (key value : List ℕ)
      → (capacity : ℕ) × (add_pair atoi b told key value
          ≡ some (
            record { text = b.text ++ pair_text key value; capacity = capacity },
            length_if key value told,
          ))
        × (length (b.text ++ pair_text key value) < capacity)
  unfolding add_pair
  add_pair_lem b told key value =
      let t1 = b.text ++ key in
      let t2 = t1 ++ codes ": " in
      let t3 = t2 ++ value in
      let l1 = length-append b.text key in
      let l2 = length-append t1 (codes ": ") in
      let l3 = length-append t2 value in
      let l4 = length-append t3 crlf in
      let room = length b.text + length key + length value + 5 in
      let flat : t3 ++ crlf ≡ b.text ++ pair_text key value = simp append_assoc in
      (
        room,
        append_then _ _ _ (omega arith) (
            append_then _ _ _ (omega arith) (
              append_then _ _ _ (omega arith) (
                append_then _ _ _ (omega arith) (
                  ap (λ t. some (record { text = t; capacity = room }, length_if key value told))
                    flat)))),
        omega (arith, ap length flat),
      )

  -- What the loop over the headers leaves.
  abbrev pub Adds : List Header → Buffer → ℕ → Type 0
  Adds hs b told =
      (capacity : ℕ) × (add_headers atoi hs b told
        ≡ some
            (record { text = b.text ++ header_lines hs; capacity = capacity }, told_length hs told))
      × (length (b.text ++ header_lines hs) < capacity)

  add_headers-cons :
      (key value : Option (List ℕ)) (hs : List Header)
      → ((b : Buffer) (told : ℕ) → length b.text < b.capacity → Adds hs b told)
      → (b : Buffer) (told : ℕ) → length b.text < b.capacity
      → Adds (record { key = key; value = value } ∷ hs) b told
  unfolding add_headers
  add_headers-cons none value hs rest b told h = rest b told h
  add_headers-cons (some key) none hs rest b told h = rest b told h
  add_headers-cons (some key) (some value) hs rest b told h =
      let (room, done, fits) = add_pair_lem b told key value in
      let b' : Buffer = record { text = b.text ++ pair_text key value; capacity = room } in
      let (room', done', fits') = rest b' (length_if key value told) fits in
      let flat = append_assoc b.text (pair_text key value) (header_lines hs) in
      (
        room',
        ap (λ m. m >>= λ d. add_headers atoi hs d.0 d.1) done
            ∙ done'
            ∙ ap
                (λ t. some (
                  record { text = t; capacity = room' },
                  told_length hs (length_if key value told),
                ))
                flat,
        omega (arith, fits', ap length flat),
      )

  add_headers_lem :
      (hs : List Header) (b : Buffer) (told : ℕ) → length b.text < b.capacity → Adds hs b told
  unfolding add_headers
  add_headers_lem [] b told h =
      let flat = append-nil b.text in
      (
        b.capacity,
        ap (λ t. some (record { text = t; capacity = b.capacity }, told)) (sym flat),
        omega (arith, ap length flat),
      )
  add_headers_lem (h ∷ hs) b told fits =
      add_headers-cons h.key h.value hs (add_headers_lem hs) b told fits

  -- The text of a response: status line, header lines, blank line, the bytes of the body that the
  -- headers tell of, and a line end.
  abbrev pub response_text : Response → List ℕ
  response_text r =
      status_text r.http_version r.status_code
      ++ (header_lines r.headers
          ++ (crlf ++ (take (told_length r.headers 0) r.message_body ++ crlf)))

  body_room_lem :
      (b : Buffer) (told : ℕ) (body : List ℕ)
      → (told ≡ 0 → (n : ℕ) × (string_length body ≡ some n))
      → (room : ℕ) × (body_room b told body ≡ some room) × (length b.text + 5 + told ≤ room)
  unfolding body_room
  body_room_lem b told body h = elim (Bool-cases (told == 0)) [
    | inl zero_told ↦
        let none_told : told ≡ 0 = (==_iff told 0).0 zero_told in
        let (n, e) = h none_told in (length b.text + 5 + n, rw zero_told (rw e refl), omega arith)
    | inr some_told ↦ (length b.text + 5 + told, rw some_told refl, omega arith)
  ]

  add_body_lem :
      (b : Buffer) (told : ℕ) (body : List ℕ)
      → told ≤ length body
      → length b.text + length (take told body ++ crlf) < b.capacity
      → add_body b told body ≡ some (record b { text = b.text ++ (take told body ++ crlf) })
  unfolding add_body
  add_body_lem b told body enough fits =
      let whole : leb told (length body) ≡ true = ground arith in
      rw whole (append-some b (take told body ++ crlf) fits)

  -- A response with a status code of at most three digits and at least as many bytes of body as its
  -- headers tell as Content-Length, and with a null somewhere in the body if they tell none or 0, is
  -- rendered with every write inside its buffer: the status line, the header lines, a blank line, as
  -- many bytes of the body as the headers tell, so none of it if they tell none, and a line end.
  pub response_string_lem :
      (r : Response)
      → r.status_code < 1000
      → told_length r.headers 0 ≤ length r.message_body
      → (told_length r.headers 0 ≡ 0 → (n : ℕ) × (string_length r.message_body ≡ some n))
      → Yields (response_string atoi r) (response_text r)
  unfolding response_string
  response_string_lem r status enough null =
      let (room1, e1, f1) = status_line_lem r.http_version r.status_code status in
      let body = r.message_body in
      let told = told_length r.headers 0 in
      let st = status_text r.http_version r.status_code in
      let b1 : Buffer = record { text = st; capacity = room1 } in
      let (room2, e2, f2) = add_headers_lem r.headers b1 0 f1 in
      let t2 = st ++ header_lines r.headers in
      let (room3, e3, f3) = body_room_lem (record { text = t2; capacity = room2 }) told body null in
      let t3 = t2 ++ crlf in
      let tail = take told body ++ crlf in
      let flat : t3 ++ tail ≡ response_text r = simp append_assoc in
      let l3 = length-append t2 crlf in
      let l4 = length-append t3 tail in
      let l5 = length-append (take told body) crlf in
      let l6 = length-take_of_le told body enough in
      (
        room3,
        rw e1 (
            rw e2 (
              rw e3 (
                append_then _ _ _ (omega arith) (
                  add_body_lem (record { text = t3; capacity = room3 }) told body enough
                    (omega arith)
                  ∙ ap (λ t. some (record { text = t; capacity = room3 })) flat)))),
        omega (arith, ap length flat),
      )
