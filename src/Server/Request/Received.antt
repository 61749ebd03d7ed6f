-- ===== src/Server/Request/Received.antt =====
-- What handle of lab5-src/server.c makes of a request that is written as HTTP has it.
use cs.Common.{
  ℕ, suc, ◌<◌, ◌≡◌, refl, sym, ap, subst, ◌∙◌, Bool-cases, inl, inr, List, [], ◌∷◌, ◌++◌, All, some,
  length, length-append, if◌then◌else◌, same_text, same_text_iff, codes, arith,
}
use cs.Server.Buffer.{append}
use cs.Common.Arrays.{Array, new_array, IsArray, new-IsArray}
use cs.Server.Messages.{Header}
use cs.Server.Request.{
  Request, tokens, pick_words, index_path, add_lines, request_of, received, receipt_of,
  read_request, receive,
}
use cs.Server.Request.Words.{
  IsPlain, IsLine, IsWord, letters, plain_letters, IsLine-append, tokens-word, tokens-last,
}
use cs.Server.Request.Lines.{
  lines_onto, IsText, read_lines-lines, Pair, pair_line, pair_headers, IsPair, colon-IsLetter,
  pair_lines, add_lines-pairs,
}

-- A request as it is written: the first line, a line for each header, and the empty line.
pub record Written : Type 0 where
  pub method : List ℕ
  pub uri : List ℕ
  pub version : List ℕ
  pub pairs : List Pair

abbrev pub first_line : Written → List ℕ
first_line w = w.method ++ (32 ∷ (w.uri ++ (32 ∷ w.version)))

abbrev pub written_lines : Written → List (List ℕ)
written_lines w = first_line w ∷ pair_lines w.pairs

abbrev pub request_text : Written → (rest : List ℕ) → List ℕ
request_text w = lines_onto (written_lines w)

pub record IsWritten (w : Written) : Type 0 where
  pub method : IsWord w.method
  pub uri : IsWord w.uri
  pub version : IsWord w.version
  pub pairs : All IsPair w.pairs

-- The URI that the request gets.
abbrev pub index_uri : List ℕ → List ℕ
index_uri uri = if same_text uri (codes "/") then codes "/index.html" else uri

index_path-index_uri : (uri : List ℕ) → index_path uri ≡ some (index_uri uri)
unfolding index_path append same_text
index_path-index_uri uri = elim (Bool-cases (same_text uri (codes "/"))) [
  | inl e ↦
      let slash = (same_text_iff uri (codes "/")).0 e in
      subst (λ u. index_path u ≡ some (index_uri u)) (sym slash) refl
  | inr e ↦ rw e refl
]

word-IsLine : (w : List ℕ) → IsWord w → IsLine w
word-IsLine w h = plain_letters w (letters w h)

space-IsPlain : IsPlain 32
space-IsPlain = (ground arith, ground arith, omega arith)

first_line-IsText : (w : Written) → IsWritten w → IsText (first_line w)
first_line-IsText w h = (
  IsLine-append w.method (32 ∷ (w.uri ++ (32 ∷ w.version))) (word-IsLine w.method h.method) (
    space-IsPlain,
    IsLine-append w.uri (32 ∷ w.version) (word-IsLine w.uri h.uri)
        (space-IsPlain, word-IsLine w.version h.version),
  ),
  omega (arith, length-append w.method (32 ∷ (w.uri ++ (32 ∷ w.version)))),
)

pair_line-IsText : (p : Pair) → IsPair p → IsText (pair_line p)
pair_line-IsText (key, value) h = (
  IsLine-append key (58 ∷ 32 ∷ value) (word-IsLine key h.0)
      (colon-IsLetter.1, (space-IsPlain, word-IsLine value h.1)),
  omega (arith, length-append key (58 ∷ 32 ∷ value)),
)

pair_lines-IsText : (pairs : List Pair) → All IsPair pairs → All IsText (pair_lines pairs)
pair_lines-IsText [] h = tt
pair_lines-IsText (p ∷ pairs) h = (pair_line-IsText p h.0, pair_lines-IsText pairs h.1)

tokens-first_line :
    (w : Written) → IsWritten w → tokens (first_line w) ≡ w.method ∷ w.uri ∷ w.version ∷ []
tokens-first_line w h =
    tokens-word w.method (w.uri ++ (32 ∷ w.version)) h.method
    ∙ ap (λ words. w.method ∷ words)
        (tokens-word w.uri w.version h.uri
          ∙ ap (λ words. w.uri ∷ words) (tokens-last w.version h.version))

-- The request that an array of the lines makes.
abbrev pub request_from : Written → Array Header → Request
request_from w headers = record {
  method = w.method;
  request_uri = index_uri w.uri;
  http_version = w.version;
  headers = headers;
  message_body = [];
  query = [];
}

add_lines-first :
    (n : ℕ) (g : Array (List ℕ)) (a : Array Header) → add_lines (suc n) 0 g a ≡ add_lines n 1 g a
unfolding add_lines
add_lines-first n g a = refl

request_of-written :
    (w : Written) (g : Array (List ℕ))
    → IsWritten w
    → IsArray g (written_lines w)
    → (headers : Array Header) × (request_of g ≡ some (request_from w headers))
      × IsArray headers (pair_headers w.pairs)
unfolding request_of pick_words
request_of-written w g h k =
    let (headers, e, a) =
      add_lines-pairs w.pairs 1 g (new_array 1) [] (omega arith) h.pairs k.stored.1
        (new-IsArray 1 (omega arith)) in
    let whole : add_lines g.num 0 g (new_array 1) ≡ some headers =
      ap (λ n. add_lines n 0 g (new_array 1)) k.count
      ∙ add_lines-first (length (pair_lines w.pairs)) g (new_array 1)
      ∙ e in
    (
      headers,
      rw k.stored.0 (rw (tokens-first_line w h) (rw (index_path-index_uri w.uri) (rw whole refl))),
      a,
    )

-- A request of words without special bytes is received as it was written: its method, its version,
-- its URI with index.html behind a single slash, and its headers in their order. The bytes behind it
-- are left. The fuel is more than the number of its lines; a header's value is not "Basic".
pub receive-request_text :
    (fuel : ℕ) (w : Written) (rest : List ℕ)
    → IsWritten w
    → length (written_lines w) < fuel
    → (headers : Array Header) × (receive fuel (request_text w rest)
        ≡ received (request_from w headers) rest)
      × IsArray headers (pair_headers w.pairs)
unfolding receive read_request
receive-request_text fuel w rest h lt =
    let text : All IsText (written_lines w) =
      (first_line-IsText w h, pair_lines-IsText w.pairs h.pairs) in
    let (g, e, k) =
      read_lines-lines (written_lines w) fuel (new_array 1) [] rest text
        (new-IsArray 1 (omega arith)) lt in
    let (headers, made, a) = request_of-written w g h k in
    (headers, ap read_request e ∙ ap (λ r. receipt_of r rest) made, a)
