-- ===== src/Shell/Expand/Ends.antt =====
-- That the loop of environment_expansion of lab3-src/shell.y ends within its rounds.
use mathlib.Core.Option.{none-ne-some}
use cs.Common.{
  c_string, ℕ, zero, suc, ◌+◌, ◌-◌, ◌≤◌, ◌<◌, ◌≡◌, refl, ltb, sym, ◌∙◌, ap, true, false, not, ◌&&◌,
  Bool, Bool-cases, inl, inr, List, [], ◌∷◌, ◌++◌, Option, none, some, length, length-append, take,
  drop, get_elem?, ◌==◌, if◌then◌else◌, arith,
}
use cs.Server.Buffer.{Buffer}
use cs.Shell.Expand.{
  has, up_to, set_null, unmarked, reference, Expanded, out_of_fuel, continued, byte_of, expand_at,
}

length-drop : (n : ℕ) (xs : List ℕ) → length (drop n xs) ≡ length xs - n
length-drop zero xs = omega arith
length-drop (suc n) [] = omega arith
length-drop (suc n) (x ∷ xs) = omega (arith, length-drop n xs)

take-≤ : (n : ℕ) (xs : List ℕ) → length (take n xs) ≤ n
take-≤ zero xs = omega arith
take-≤ (suc n) [] = omega arith
take-≤ (suc n) (x ∷ xs) = omega (arith, take-≤ n xs)

c_string-≤ : (xs : List ℕ) → length (c_string xs) ≤ length xs
unfolding c_string
c_string-≤ [] = omega arith
c_string-≤ (x ∷ xs) = ground (arith, c_string-≤ xs)

up_to-≤ : (mark : ℕ) (xs : List ℕ) → length (up_to mark xs) ≤ length xs
unfolding up_to
up_to-≤ mark [] = omega arith
up_to-≤ mark (x ∷ xs) = ground (arith, up_to-≤ mark xs)

set_null-length : (xs : List ℕ) (i : ℕ) → length (set_null xs i) ≡ length xs
set_null-length [] i = refl
set_null-length (x ∷ xs) zero = refl
set_null-length (x ∷ xs) (suc i) = ap suc (set_null-length xs i)

-- The move of a string within its bytes does not lengthen them.
unmarked-≤ : (bytes : List ℕ) (q : ℕ) → q ≤ length bytes → length (unmarked bytes q) ≤ length bytes
unmarked-≤ bytes q le =
    let n = length (c_string (drop q bytes)) in
    let short = c_string-≤ (drop q bytes) in
    let a = take q bytes in
    let b = take n (drop (q + 1) bytes) in
    let c = drop (q + n) bytes in
    omega (
      arith,
      length-append a (b ++ c),
      length-append b c,
      take-≤ q bytes,
      take-≤ n (drop (q + 1) bytes),
      length-drop (q + n) bytes,
      length-drop q bytes,
      short,
      le,
    )

reference-≤ : (bytes : List ℕ) (i : ℕ) → length (reference bytes i).1 ≤ length bytes
unfolding reference
reference-≤ bytes i =
    let text = c_string (drop i bytes) in
    let q = length (up_to 36 (c_string bytes)) in
    let within : q ≤ length bytes = omega (arith, up_to-≤ 36 (c_string bytes), c_string-≤ bytes) in
    elim (Bool-cases (has 123 text && has 125 text)) [
      | inl e ↦ rw e (omega (arith, set_null-length bytes (i + length (up_to 125 text))))
      | inr e ↦ rw e (unmarked-≤ bytes q within)
    ]

get_elem?-past : (xs : List ℕ) (i : ℕ) → length xs ≤ i → get_elem? xs i ≡ none
get_elem?-past [] i h = refl
get_elem?-past (x ∷ xs) zero h = let low : ⊥ = omega (arith, h) in elim low [ ]
get_elem?-past (x ∷ xs) (suc i) h = get_elem?-past xs i (omega (arith, h))

-- The loop came to an end.
abbrev pub IsEnded : Expanded → Type 0
IsEnded out_of_fuel = ⊥
IsEnded _ = Unit

if-IsEnded : (b : Bool) (x y : Expanded) → IsEnded x → IsEnded y → IsEnded (if b then x else y)
if-IsEnded true x y h k = h
if-IsEnded false x y h k = k

continued-IsEnded :
    (m : Option Buffer) (next : List ℕ → Expanded)
    → ((text : List ℕ) → IsEnded (next text))
    → IsEnded (continued m next)
continued-IsEnded none next h = tt
continued-IsEnded (some b) next h = h b.text

byte_of-IsEnded :
    (m : Option ℕ) (next : ℕ → Expanded)
    → ((c : ℕ) → m ≡ some c → IsEnded (next c))
    → IsEnded (byte_of m next)
byte_of-IsEnded none next h = tt
byte_of-IsEnded (some c) next h = h c refl

-- A byte was read within the bytes that there are.
read_within : (xs : List ℕ) (i c : ℕ) → get_elem? xs i ≡ some c → i < length xs
read_within xs i c h = elim (Bool-cases (ltb i (length xs))) [
  | inl e ↦ ground arith
  | inr e ↦
      let past : get_elem? xs i ≡ none = get_elem?-past xs i (ground arith) in
      let bad : ⊥ = none-ne-some c (sym past ∙ h) in elim bad [ ]
]

module _ (regcomp : List ℕ → Option (List ℕ → Bool)) (readdir : List ℕ → Option (List (List ℕ)))
    (qsort : List (List ℕ) → List (List ℕ)) (home : Option (List ℕ))
    (getenv : List ℕ → Option (List ℕ)) (cwd : List ℕ) (pid : ℕ) (regexec : List ℕ → Bool)
    (last_pid last_return : ℕ) where
  -- With as many rounds as there are bytes ahead, and one more, the loop ends.
  pub expand_at-IsEnded :
      (fuel : ℕ) (bytes : List ℕ) (i : ℕ) (env_arg : List ℕ)
      → 1 ≤ fuel
      → length bytes < fuel + i
      → IsEnded (
          expand_at regcomp readdir qsort home getenv cwd pid regexec last_pid last_return fuel
            bytes i env_arg)
  unfolding expand_at
  expand_at-IsEnded zero bytes i env_arg some_fuel h =
      let low : ⊥ = omega (arith, some_fuel) in elim low [ ]
  expand_at-IsEnded (suc fuel) bytes i env_arg some_fuel h =
      byte_of-IsEnded (get_elem? bytes i) _ (λ c read.
        let within = read_within bytes i c read in
        let shorter = reference-≤ bytes i in
        if-IsEnded (c == 0) _ _ tt (
          if-IsEnded (c == 36) _ _
            (continued-IsEnded _ _ (λ text.
              expand_at-IsEnded fuel (reference bytes i).1 (i + length (reference bytes i).0 + 3)
                text (omega arith) (omega arith)))
            (if-IsEnded (not (c == 92)) _ _
              (continued-IsEnded _ _
                (λ text. expand_at-IsEnded fuel bytes (i + 1) text (omega arith) (omega arith)))
              (expand_at-IsEnded fuel bytes (i + 1) env_arg (omega arith) (omega arith)))))

  -- The rounds that environment_expansion gives it are enough.
  pub environment_expansion-IsEnded :
      (arg : List ℕ)
      → IsEnded (
          expand_at regcomp readdir qsort home getenv cwd pid regexec last_pid last_return
            (length arg + 2)
            (arg ++ (0 ∷ []))
            0
            [])
  environment_expansion-IsEnded arg =
      expand_at-IsEnded (length arg + 2) (arg ++ (0 ∷ [])) 0 [] (omega arith)
        (omega (arith, length-append arg (0 ∷ [])))
