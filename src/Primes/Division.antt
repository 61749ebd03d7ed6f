-- ===== src/Primes/Division.antt =====
-- The loops of lab1/src1.c against the definition of a prime number.
use cs.Common.{
  ℤ, pos, negsuc, ◌↔◌, subst, ==_iff, ℕ, zero, suc, ◌+◌, ◌-◌, ◌/◌, ◌%◌, ◌≤◌, ◌<◌, ◌≡◌, ◌≢◌, refl,
  ◌⊎◌, inl, inr, true, false, List, [], ◌∷◌, All, Bool-cases, ltb, leb, ◌==◌, ◌||◌, if◌then◌else◌,
  arith,
}
use cs.Primes.{
  main, not_positive, reversed, too_far, has_divisor, is_printed, primes_from, primes, no_prime,
  report, check_range,
}

abbrev pub IsPrime : ℕ → Type 0
IsPrime i = (2 ≤ i) × ((d : ℕ) → 2 ≤ d → d < i → i % d ≢ 0)

-- A divisor leaves a quotient of at least 2.
half : (i d : ℕ) → 2 ≤ d → d < i → i % d ≡ 0 → d ≤ i / 2
half i d two lt h = grind arith

-- The loop misses no divisor from `j` on.
has_divisor-false :
    (rounds i j : ℕ)
    → has_divisor rounds i j ≡ false
    → i < rounds + j
    → (d : ℕ) → j ≤ d
    → d ≤ i / 2
    → i % d ≢ 0
unfolding has_divisor
has_divisor-false zero i j h enough d lo hi = absurd (omega arith)
has_divisor-false (suc rounds) i j h enough d lo hi =
    let rest : has_divisor rounds i (j + 1) ≡ false → j + 1 ≤ d → i % d ≢ 0 =
      λ e le. has_divisor-false rounds i (j + 1) e (omega arith) d le hi in
    grind (arith, rest)

has_divisor-true :
    (rounds i j : ℕ) → has_divisor rounds i j ≡ true → (d : ℕ) × (j ≤ d) × (d ≤ i / 2) × (i % d ≡ 0)
unfolding has_divisor
has_divisor-true zero i j h = ground arith
has_divisor-true (suc rounds) i j h = elim (Bool-cases (leb j (i / 2))) [
  | inl le ↦ elim (Bool-cases (i % j == 0)) [
    | inl divides ↦ (j, omega arith, ground arith, ground arith)
    | inr not_divides ↦
        let (d, lo, hi, e) = has_divisor-true rounds i (j + 1) (rw not_divides at (rw le at h)) in
        (d, omega arith, hi, e)
  ]
  | inr gt ↦ ground arith
]

-- The numbers that main prints are the primes, from 2 on.
pub is_printed-IsPrime : (i : ℕ) → 2 ≤ i → (is_printed i ≡ true) ↔ IsPrime i
unfolding is_printed
is_printed-IsPrime i two = elim (Bool-cases (has_divisor i i 2)) [
  | inl found ↦
      let (d, lo, hi, e) = has_divisor-true i i 2 found in
      (λ h. absurd (ground arith), λ p. absurd (p.1 d lo (omega arith) e))
  | inr not_found ↦ (
    λ h. (
      two,
      λ d lo lt e. has_divisor-false i i 2 not_found (omega arith) d lo (half i d lo lt e) e,
    ),
    λ p. ground arith,
  )
]

-- `i` is one of a list's numbers.
abbrev pub Has : ℕ → List ℕ → Type 0
Has i [] = ⊥
Has i (x ∷ xs) = (i ≡ x) ⊎ Has i xs

-- The numbers ascend.
abbrev pub Ascends : List ℕ → Type 0
Ascends [] = Unit
Ascends (x ∷ xs) = All (λ y. x < y) xs × Ascends xs

-- A list of exactly the primes from `a` to below `b`, in order.
pub record IsPrimeRange (a b : ℕ) (xs : List ℕ) : Type 0 where
  pub sound : All (λ i. (a ≤ i) × (i < b) × IsPrime i) xs
  pub complete : (i : ℕ) → a ≤ i → i < b → IsPrime i → Has i xs
  pub ascends : Ascends xs

All-map : {P Q : ℕ → Type 0} (xs : List ℕ) → ((x : ℕ) → P x → Q x) → All P xs → All Q xs
All-map [] f h = tt
All-map (x ∷ xs) f h = (f x h.0, All-map xs f h.1)

IsPrimeRange-cons :
    (a b : ℕ) (xs : List ℕ)
    → a < b
    → IsPrime a
    → IsPrimeRange (a + 1) b xs
    → IsPrimeRange a b (a ∷ xs)
IsPrimeRange-cons a b xs lt p h = record {
  sound = ((omega arith, lt, p), All-map xs (λ x k. (omega (arith, k.0), k.1, k.2)) h.sound);
  complete = λ i lo hi q. elim (Bool-cases (i == a)) [
    | inl e ↦ inl ((==_iff i a).0 e)
    | inr ne ↦ inr (h.complete i (ground arith) hi q)
  ];
  ascends = (All-map xs (λ x k. omega (arith, k.0)) h.sound, h.ascends);
}

IsPrimeRange-skip :
    (a b : ℕ) (xs : List ℕ) → ¬ IsPrime a → IsPrimeRange (a + 1) b xs → IsPrimeRange a b xs
IsPrimeRange-skip a b xs not_prime h = record {
  sound = All-map xs (λ x k. (omega (arith, k.0), k.1, k.2)) h.sound;
  complete = λ i lo hi q. elim (Bool-cases (i == a)) [
    | inl e ↦ absurd (not_prime (subst IsPrime ((==_iff i a).0 e) q))
    | inr ne ↦ h.complete i (ground arith) hi q
  ];
  ascends = h.ascends;
}

pub primes_from-IsPrimeRange :
    (rounds a b : ℕ) → 2 ≤ a → b ≤ rounds + a → IsPrimeRange a b (primes_from rounds a b)
unfolding primes_from
primes_from-IsPrimeRange zero a b two enough = record {
  sound = tt;
  complete = λ i lo hi p. absurd (omega arith);
  ascends = tt;
}
primes_from-IsPrimeRange (suc rounds) a b two enough =
    let rest = primes_from-IsPrimeRange rounds (a + 1) b (omega arith) (omega arith) in
    let printed = is_printed-IsPrime a two in
    elim (Bool-cases (ltb a b)) [
      | inl lt ↦ elim (Bool-cases (is_printed a)) [
        | inl yes_printed ↦
            rw lt
              (rw yes_printed (IsPrimeRange-cons a b _ (ground arith) (printed.0 yes_printed) rest))
        | inr not_printed ↦
            rw lt (rw not_printed (IsPrimeRange-skip a b _ (λ p. ground (arith, printed.1 p)) rest))
      ]
      | inr ge ↦
          rw ge record { sound = tt; complete = λ i lo hi p. absurd (ground arith); ascends = tt }
    ]

-- The lower number that main goes on with.
abbrev pub lower : ℕ → ℕ
lower num1 = if (num1 == 0) || (num1 == 1) then 2 else num1

lower_cases : (n : ℕ) → ((lower n ≡ n) × (2 ≤ n)) ⊎ ((lower n ≡ 2) × (n < 2))
lower_cases n = ground arith

-- No prime is below 2.
IsPrimeRange-lower : (n b : ℕ) (xs : List ℕ) → IsPrimeRange (lower n) b xs → IsPrimeRange n b xs
IsPrimeRange-lower n b xs h = elim (lower_cases n) [
  | inl (e, two) ↦ subst (λ a. IsPrimeRange a b xs) e h
  | inr (e, lt) ↦ record {
    sound = All-map xs (λ x k. (omega (arith, k.0, e), k.1, k.2)) h.sound;
    complete = λ i lo hi p. h.complete i (omega (arith, p.0, e)) hi p;
    ascends = h.ascends;
  }
]

-- For a range in order and of at most 5000 numbers, main prints exactly the primes from the lower
-- number to below the upper one, in order, under a header that tells 2 for a lower number of 0 or 1,
-- or that there is none.
pub main-IsPrimeRange :
    (num1 num2 : ℕ)
    → num1 ≤ num2
    → num2 ≤ num1 + 5000
    → (is : List ℕ) × IsPrimeRange num1 num2 is
      × (main (pos num1) (pos num2) ≡ report (lower num1) num2 is)
unfolding main check_range
main-IsPrimeRange num1 num2 order small =
    let a = lower num1 in
    let is = primes_from (num2 - a) a num2 in
    let two : 2 ≤ a = ground (arith, lower_cases num1) in
    let in_order : ltb num2 num1 ≡ false = ground arith in
    let near : ltb 5000 (num2 - num1) ≡ false = ground arith in
    (
      is,
      IsPrimeRange-lower num1 num2 is
          (primes_from-IsPrimeRange (num2 - a) a num2 two (omega arith)),
      rw in_order (rw near refl),
    )

report_cases :
    (a b : ℕ) (is : List ℕ) → (report a b is ≡ no_prime) ⊎ (report a b is ≡ primes a b is)
report_cases a b [] = inl refl
report_cases a b (i ∷ is) = inr refl

-- The tests in front of the loop, in their order.
abbrev pub IsNegative : ℤ → Type 0
IsNegative (pos n) = ⊥
IsNegative (negsuc n) = Unit

abbrev pub IsReversed : ℤ → ℤ → Type 0
IsReversed (pos num1) (pos num2) = num2 < num1
IsReversed _ _ = ⊥

abbrev pub IsTooFar : ℤ → ℤ → Type 0
IsTooFar (pos num1) (pos num2) = num1 + 5000 < num2
IsTooFar _ _ = ⊥

-- main prints the error for a negative number exactly if one of the two is negative; the error for a
-- range out of order exactly if neither is and the upper one is below the lower one; and the error for
-- a range that is too large exactly if neither is and there are more than 5000 between them.
pub main_errors :
    (z1 z2 : ℤ)
    → ((main z1 z2 ≡ not_positive) ↔ (IsNegative z1 ⊎ IsNegative z2))
      × ((main z1 z2 ≡ reversed) ↔ IsReversed z1 z2)
      × ((main z1 z2 ≡ too_far) ↔ IsTooFar z1 z2)
unfolding main check_range
main_errors (pos num1) (pos num2) =
    let a = lower num1 in
    let reported = report_cases a num2 (primes_from (num2 - a) a num2) in
    (
      (
        λ e. absurd (ground (arith, reported, e)),
        λ h. elim h [ inl n ↦ absurd n | inr n ↦ absurd n ],
      ),
      (λ e. ground (arith, reported, e), λ h. ground arith),
      (λ e. ground (arith, reported, e), λ h. ground arith),
    )
main_errors (pos num1) (negsuc n) = (
  (λ e. inr tt, λ h. refl),
  (λ e. absurd (ground (arith, e)), λ h. absurd h),
  (λ e. absurd (ground (arith, e)), λ h. absurd h),
)
main_errors (negsuc n) z2 = (
  (λ e. inl tt, λ h. refl),
  (λ e. absurd (ground (arith, e)), λ h. absurd h),
  (λ e. absurd (ground (arith, e)), λ h. absurd h),
)
