-- ===== src/Server/Request/Ends.antt =====
-- That handle of lab5-src/server.c reads no more lines than bytes come in.
use mathlib.Core.Option
use cs.Common.{
  c_string, ℕ, zero, suc, ◌+◌, ◌-◌, ◌≤◌, ◌<◌, ◌≢◌, refl, sym, subst, Bool, Bool-cases, inl, inr,
  false, List, [], ◌∷◌, Option, Option-cases, none, some, length, take, ltb, leb, ◌==◌, ◌&&◌,
  if◌then◌else◌, arith,
}
use cs.Common.Arrays.{Array, push, new_array, one_more}
use cs.Server.Reader.Lines.{ahead, socket_read_line-ahead}
use cs.Server.Request.{
  Reading, lines, fault, out_of_fuel, with_line, with_array, read_lines, read_request, receive,
  request_of,
}

-- The bytes of a line, and those behind it, all came in.
abbrev Fits : Option (List ℕ) × List ℕ → ℕ → Type 0
Fits (none, rest) n = Unit
Fits (some line, rest) n = length line + length rest ≤ n

Fits-map :
    (c : ℕ) (line : Option (List ℕ)) (rest : List ℕ) (n : ℕ)
    → Fits (line, rest) n
    → Fits (Option.map (λ l. c ∷ l) line, rest) (suc n)
Fits-map c none rest n h = tt
Fits-map c (some line) rest n h = omega (arith, h)

ahead-Fits : (r : Bool) (cs : List ℕ) → Fits (ahead r cs) (length cs)
ahead-Fits r [] = omega arith
ahead-Fits r (c ∷ cs) = elim (Bool-cases (c == 255)) [
  | inl e ↦ rw e (omega arith)
  | inr not_eof ↦ elim (Bool-cases (leb 128 c)) [
    | inl e ↦ rw not_eof (rw e tt)
    | inr not_error ↦ elim (Bool-cases (r && c == 10)) [
      | inl e ↦ rw not_eof (rw not_error (rw e (omega arith)))
      | inr e ↦
          let rest = ahead (c == 13) cs in
          rw not_eof
            (rw not_error (rw e (Fits-map c rest.0 rest.1 (length cs) (ahead-Fits (c == 13) cs))))
    ]
  ]
]

c_string-le : (line : List ℕ) → length (c_string line) ≤ length line
unfolding c_string
c_string-le [] = omega arith
c_string-le (c ∷ line) = ground (arith, c_string-le line)

with_line-ends :
    (r : Option (List ℕ) × List ℕ) (n : ℕ) (f : List ℕ → List ℕ → Reading)
    → Fits r n
    → ((line rest : List ℕ) → length line + length rest ≤ n → f line rest ≢ out_of_fuel)
    → with_line (some r) f ≢ out_of_fuel
with_line-ends (none, rest) n f h k = λ e. ground (arith, e)
with_line-ends (some line, rest) n f h k = k line rest h

with_array-ends :
    (a : Option (Array (List ℕ))) (f : Array (List ℕ) → Reading)
    → ((a : Array (List ℕ)) → f a ≢ out_of_fuel)
    → with_array a f ≢ out_of_fuel
with_array-ends none f k = λ e. ground (arith, e)
with_array-ends (some a) f k = k a

read_lines-ends :
    (fuel : ℕ) (a : Array (List ℕ)) (incoming : List ℕ)
    → length incoming < fuel
    → read_lines fuel a incoming ≢ out_of_fuel
unfolding read_lines
read_lines-ends zero a incoming h = absurd (omega arith)
read_lines-ends (suc fuel) a incoming h =
    subst
      (λ r.
        with_line r (λ line rest.
          let text = c_string line in
          let more =
            with_array (push one_more a (take (length text - 2) text))
              λ a. read_lines fuel a rest in
          if ltb 2 (length text) then more else lines a rest)
        ≢ out_of_fuel)
      (sym (socket_read_line-ahead incoming))
      (with_line-ends (ahead false incoming) (length incoming) _ (ahead-Fits false incoming)
        λ line rest fits. elim (Bool-cases (ltb 2 (length (c_string line)))) [
          | inl long ↦ rw long (
              with_array-ends _ _
                λ a. read_lines-ends fuel a rest (ground (arith, c_string-le line, fits)))
          | inr short ↦ rw short (λ e. ground (arith, e))
        ])

read_request-ends : (r : Reading) → r ≢ out_of_fuel → read_request r ≢ out_of_fuel
unfolding read_request
read_request-ends (lines g rest) h = elim (Option-cases (request_of g)) [
  | inl e ↦ rw e (λ k. ground (arith, k))
  | inr (request, e) ↦ rw e (λ k. ground (arith, k))
]
read_request-ends fault h = λ k. ground (arith, k)
read_request-ends out_of_fuel h = absurd (h refl)

-- Whatever comes in, one round more than there are bytes is enough to read the request.
pub receive-ends :
    (fuel : ℕ) (incoming : List ℕ) → length incoming < fuel → receive fuel incoming ≢ out_of_fuel
unfolding receive
receive-ends fuel incoming h =
    read_request-ends (read_lines fuel (new_array 1) incoming)
      (read_lines-ends fuel (new_array 1) incoming h)
