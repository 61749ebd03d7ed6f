-- ===== src/Server/Path.antt =====
-- The path that parse_respond of lab5-src/server.c opens for a request's URI. The ints that hold
-- lengths are numbers without a bound: texts are taken to be far shorter than 2^31 bytes.
use cs.Common.{
  ◌>>=◌, ℕ, ◌+◌, inl, inr, Bool, Bool-cases, true, false, ◌&&◌, ◌||◌, List, [], ◌∷◌, ◌++◌, Option,
  length, length-append, codes, ◌==◌, if◌then◌else◌, arith,
}
use cs.Server.Buffer.{Buffer, duplicate, resize, append, append-some, append_then}
use cs.Server.Messages.Rendered.{Yields}

abbrev pub root : List ℕ
root = codes "./http-root-dir"

-- !strncmp(text, prefix, strlen(prefix))
abbrev pub starts_with : (prefix text : List ℕ) → Bool
starts_with [] text = true
starts_with (p ∷ prefix) [] = false
starts_with (p ∷ prefix) (c ∷ text) = (p == c) && starts_with prefix text

abbrev pub is_served : List ℕ → Bool
is_served uri = starts_with (codes "/icons") uri || starts_with (codes "/htdocs") uri

unfoldable pub revised_path : List ℕ → Option Buffer
revised_path uri =
    let path = duplicate root in
    let under_htdocs : Option Buffer =
      append (resize path (length root + 7 + length uri + 2)) (codes "/htdocs") >>= λ b.
      append b uri in
    let below_htdocs : Option Buffer =
      append (resize path (length root + 8 + length uri + 1)) (codes "/htdocs/") >>= λ b.
      append b uri in
    if is_served uri
    then append (resize path (length root + length uri + 1)) uri
    else if starts_with (codes "/") uri
    then under_htdocs
    else below_htdocs

-- Where a URI leads below the root: as it is under /icons and /htdocs, else into /htdocs.
abbrev pub served_uri : List ℕ → List ℕ
served_uri uri =
    if is_served uri
    then uri
    else codes "/htdocs" ++ (if starts_with (codes "/") uri then uri else codes "/" ++ uri)

-- The path is written within its buffer for every URI, and it is the root followed by the URI if
-- that is under /icons or /htdocs, else by /htdocs and the URI, with one slash between them at least.
pub revised_path-Yields : (uri : List ℕ) → Yields (revised_path uri) (root ++ served_uri uri)
unfolding revised_path
revised_path-Yields uri = elim (Bool-cases (is_served uri)) [
  | inl served ↦
      let size = length-append root uri in
      rw served (
        length root + length uri + 1,
        append-some (resize (duplicate root) (length root + length uri + 1)) uri (omega arith),
        omega (arith, size),
      )
  | inr other ↦ elim (Bool-cases (starts_with (codes "/") uri)) [
    | inl slash ↦
        let room = length root + 7 + length uri + 2 in
        let b : Buffer = record { text = root ++ codes "/htdocs"; capacity = room } in
        let size = length-append (root ++ codes "/htdocs") uri in
        rw other (
          rw slash (
            room,
            append_then (resize (duplicate root) room) (codes "/htdocs") _ (omega arith)
                (append-some b uri (omega arith)),
            omega (arith, size),
          ))
    | inr no_slash ↦
        let room = length root + 8 + length uri + 1 in
        let b : Buffer = record { text = root ++ codes "/htdocs/"; capacity = room } in
        let size = length-append (root ++ codes "/htdocs/") uri in
        rw other (
          rw no_slash (
            room,
            append_then (resize (duplicate root) room) (codes "/htdocs/") _ (omega arith)
                (append-some b uri (omega arith)),
            omega (arith, size),
          ))
  ]
]
