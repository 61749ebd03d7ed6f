-- ===== src/Server/Respond/Strings.antt =====
-- Strings among the bytes that lab5-src handles, and where their nulls stand.
use cs.Common.{
  ℕ, zero, suc, ◌+◌, ◌/◌, ◌%◌, ◌<◌, ◌≡◌, refl, ap, ◌∙◌, inl, inr, Bool, Bool-cases, false, true,
  not, ◌&&◌, List, [], ◌∷◌, ◌++◌, Option-cases, none, some, length, decimal, decimal_onto, ◌==◌,
  arith,
}
use cs.Server.Messages.{string_length}

-- No null stands in a text.
abbrev pub no_null : List ℕ → Bool
no_null [] = true
no_null (c ∷ cs) = not (c == 0) && no_null cs

pub no_null-append :
    (xs ys : List ℕ) → no_null xs ≡ true → no_null ys ≡ true → no_null (xs ++ ys) ≡ true
no_null-append [] ys h k = k
no_null-append (x ∷ xs) ys h k = ground (arith, no_null-append xs ys)

no_null-decimal_onto :
    (fuel n : ℕ) (rest : List ℕ) → no_null rest ≡ true → no_null (decimal_onto fuel n rest) ≡ true
unfolding decimal_onto
no_null-decimal_onto zero n rest h = h
no_null-decimal_onto (suc fuel) n rest h =
    ground (arith, no_null-decimal_onto fuel (n / 10) ((48 + n % 10) ∷ rest))

pub no_null-decimal : (n : ℕ) → no_null (decimal n) ≡ true
unfolding decimal
no_null-decimal n = no_null-decimal_onto (suc n) n [] refl

-- The length of a string behind bytes that are none.
pub string_length-past :
    (xs ys : List ℕ) (n : ℕ)
    → no_null xs ≡ true
    → string_length ys ≡ some n
    → string_length (xs ++ ys) ≡ some (length xs + n)
unfolding string_length
string_length-past [] ys n h e = e ∙ ap some (omega arith)
string_length-past (x ∷ xs) ys n h e =
    let first : x == 0 ≡ false = ground arith in
    let later : no_null xs ≡ true = ground arith in
    rw first (rw (string_length-past xs ys n later e) (ap some (omega arith)))

-- A string that ends within the bytes.
pub string_length-within :
    (xs ys : List ℕ) (n : ℕ)
    → string_length xs ≡ some n
    → (string_length (xs ++ ys) ≡ some n) × (n < length xs)
unfolding string_length
string_length-within [] ys n e = ground arith
string_length-within (x ∷ xs) ys n e = elim (Bool-cases (x == 0)) [
  | inl first ↦ ground arith
  | inr later ↦ elim (Option-cases (string_length xs)) [
    | inl open_end ↦ ground arith
    | inr (k, k_end) ↦
        let (more, lt) = string_length-within xs ys k k_end in
        let k_next : suc k ≡ n = ground arith in
        (rw later (rw more (ap some k_next)), omega (arith, lt, k_next))
  ]
]

pub string_length-none : (xs : List ℕ) → string_length xs ≡ none → no_null xs ≡ true
unfolding string_length
string_length-none [] e = refl
string_length-none (x ∷ xs) e = elim (Bool-cases (x == 0)) [
  | inl first ↦ ground arith
  | inr later ↦ elim (Option-cases (string_length xs)) [
    | inl open_end ↦ ground (arith, string_length-none xs open_end)
    | inr (k, k_end) ↦ ground arith
  ]
]

pub string_length-no_null : (xs : List ℕ) → no_null xs ≡ true → string_length xs ≡ none
unfolding string_length
string_length-no_null [] h = refl
string_length-no_null (x ∷ xs) h =
    let first : x == 0 ≡ false = ground arith in
    let later : no_null xs ≡ true = ground arith in
    rw first (rw (string_length-no_null xs later) refl)
