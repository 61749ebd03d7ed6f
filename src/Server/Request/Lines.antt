-- ===== src/Server/Request/Lines.antt =====
-- The lines of a request without special bytes, as handle of lab5-src/server.c reads them and makes
-- headers of them.
use mathlib.Core.List.{append_assoc, append-nil}
use cs.Common.{
  c_string, take-append, ℕ, zero, suc, ◌+◌, ◌-◌, ◌≤◌, ◌<◌, ◌≡◌, ◌≢◌, refl, sym, ap, subst, ◌∙◌,
  Bool-cases, inl, inr, false, true, List, [], ◌∷◌, ◌++◌, All, some, length, length-append, ltb,
  ◌==◌, same_text, same_text_iff, codes, arith,
}
use cs.Common.Slots.{item, Stored}
use cs.Common.Arrays.{Array, IsArray, push-IsArray, one_more, one_more-Grows}
use cs.Server.Messages.{Header}
use cs.Server.Reader.{socket_read_line}
use cs.Server.Reader.Lines.{socket_read_line-ahead}
use cs.Server.Request.{tokens, lines, read_lines, find_value, split_header, add_line, add_lines}
use cs.Server.Request.Words.{
  IsLetter, IsLine, IsWord, line_end, ahead-line, c_string-line, tokens-word, tokens-last,
}

-- Lines as they come in, up to the empty one.
abbrev pub lines_onto : List (List ℕ) → List ℕ → List ℕ
lines_onto [] rest = line_end ++ rest
lines_onto (l ∷ ls) rest = l ++ (line_end ++ lines_onto ls rest)

-- A line with something in it.
abbrev pub IsText : List ℕ → Type 0
IsText l = IsLine l × (1 ≤ length l)

socket_read_line-line :
    (l rest : List ℕ)
    → IsLine l
    → socket_read_line (l ++ (line_end ++ rest)) ≡ some (some (l ++ line_end), rest)
socket_read_line-line l rest h =
    socket_read_line-ahead (l ++ (line_end ++ rest)) ∙ ap some (ahead-line l rest h)

pub read_lines-lines :
    (ls : List (List ℕ)) (fuel : ℕ) (a : Array (List ℕ)) (xs : List (List ℕ)) (rest : List ℕ)
    → All IsText ls
    → IsArray a xs
    → length ls < fuel
    → (a' : Array (List ℕ)) × (read_lines fuel a (lines_onto ls rest) ≡ lines a' rest)
      × IsArray a' (xs ++ ls)
unfolding read_lines
read_lines-lines ls zero a xs rest h k lt = absurd (omega arith)
read_lines-lines [] (suc fuel) a xs rest h k lt =
    let e = socket_read_line-line [] rest tt in
    let text : c_string line_end ≡ line_end = c_string-line [] tt in
    (a, rw e (rw text refl), subst (IsArray a) (sym (append-nil xs)) k)
read_lines-lines (l ∷ ls) (suc fuel) a xs rest h k lt =
    let e = socket_read_line-line l (lines_onto ls rest) h.0.0 in
    let text = c_string-line l h.0.0 in
    let size = length-append l line_end in
    let long : ltb 2 (length (l ++ line_end)) ≡ true = ground (arith, size, h.0.1) in
    let cut : length (l ++ line_end) - 2 ≡ length l = omega (arith, size) in
    let (a1, pushed, k1) = push-IsArray one_more a xs l one_more-Grows k in
    let (a2, e2, k2) = read_lines-lines ls fuel a1 (xs ++ (l ∷ [])) rest h.1 k1 (omega arith) in
    (
      a2,
      rw e (rw text (rw long (rw cut (rw (take-append l line_end) (rw pushed e2))))),
      subst (IsArray a2) (append_assoc xs (l ∷ []) ls) k2,
    )

-- A header as a pair of words, and the line that it makes.
abbrev pub Pair : Type 0
Pair = List ℕ × List ℕ

abbrev pub pair_line : Pair → List ℕ
pair_line (key, value) = key ++ (58 ∷ 32 ∷ value)

abbrev pub pair_header : Pair → Header
pair_header (key, value) = record { key = some key; value = some value }

abbrev pub pair_headers : List Pair → List Header
pair_headers [] = []
pair_headers (p ∷ pairs) = pair_header p ∷ pair_headers pairs

-- "Basic" as a value is passed over by the code.
abbrev pub IsPair : Pair → Type 0
IsPair (key, value) = IsWord key × IsWord value × (value ≢ codes "Basic")

pub colon-IsLetter : IsLetter 58
colon-IsLetter = (ground arith, (ground arith, ground arith, omega arith))

letters-colon : (cs : List ℕ) → All IsLetter cs → All IsLetter (cs ++ (58 ∷ []))
letters-colon [] h = (colon-IsLetter, tt)
letters-colon (c ∷ cs) h = (h.0, letters-colon cs h.1)

key_end-IsWord : (key : List ℕ) → IsWord key → IsWord (key ++ (58 ∷ []))
key_end-IsWord [] h = absurd h
key_end-IsWord (c ∷ cs) h = (h.0, letters-colon cs h.1)

tokens-pair_line :
    (key value : List ℕ)
    → IsWord key
    → IsWord value
    → tokens (pair_line (key, value)) ≡ (key ++ (58 ∷ [])) ∷ value ∷ []
tokens-pair_line key value k v =
    ap tokens (sym (append_assoc key (58 ∷ []) (32 ∷ value)))
    ∙ tokens-word (key ++ (58 ∷ [])) value (key_end-IsWord key k)
    ∙ ap (λ words. (key ++ (58 ∷ [])) ∷ words) (tokens-last value v)

find_value-value : (value : List ℕ) → value ≢ codes "Basic" → find_value (value ∷ []) ≡ item value
unfolding find_value
find_value-value value h = elim (Bool-cases (same_text value (codes "Basic"))) [
  | inl e ↦ absurd (h ((same_text_iff value (codes "Basic")).0 e))
  | inr e ↦ rw e refl
]

split_header-pair :
    (p : Pair) → IsPair p → split_header (tokens (pair_line p)) ≡ some (pair_header p)
split_header-pair (key, value) h =
    let size = length-append key (58 ∷ []) in
    let cut : length (key ++ (58 ∷ [])) - 1 ≡ length key = omega (arith, size) in
    rw (tokens-pair_line key value h.0 h.1)
      (rw (find_value-value value h.2) (rw cut (rw (take-append key (58 ∷ [])) refl)))

abbrev pub pair_lines : List Pair → List (List ℕ)
pair_lines [] = []
pair_lines (p ∷ pairs) = pair_line p ∷ pair_lines pairs

pub add_lines-pairs :
    (pairs : List Pair) (i : ℕ) (g : Array (List ℕ)) (a : Array Header) (xs : List Header)
    → 1 ≤ i
    → All IsPair pairs
    → Stored g.items.slot i (pair_lines pairs)
    → IsArray a xs
    → (a' : Array Header) × (add_lines (length (pair_lines pairs)) i g a ≡ some a')
      × IsArray a' (xs ++ pair_headers pairs)
unfolding add_lines add_line
add_lines-pairs [] i g a xs one h stored k = (a, refl, subst (IsArray a) (sym (append-nil xs)) k)
add_lines-pairs (p ∷ pairs) i g a xs one h stored k =
    let behind : i == 0 ≡ false = ground arith in
    let (a1, pushed, k1) = push-IsArray one_more a xs (pair_header p) one_more-Grows k in
    let (a2, e, k2) =
      add_lines-pairs pairs (i + 1) g a1 (xs ++ (pair_header p ∷ [])) (omega arith) h.1 stored.1
        k1 in
    (
      a2,
      rw behind (rw stored.0 (rw (split_header-pair p h.0) (rw pushed e))),
      subst (IsArray a2) (append_assoc xs (pair_header p ∷ []) (pair_headers pairs)) k2,
    )
