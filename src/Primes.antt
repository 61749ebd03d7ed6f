-- ===== src/Primes.antt =====
-- main of lab1/src1.c, of which src2.c and src3.c are copies: it prints the primes of a range. Its
-- two numbers are read by scanf; what it prints is the result.
mod Tests
pub mod Division
use cs.Common.{
  ℤ, pos, negsuc, ℕ, zero, suc, ◌+◌, ◌-◌, ◌/◌, ◌%◌, Bool, true, false, not, ◌&&◌, ◌||◌, List, [],
  ◌∷◌, ltb, leb, ◌==◌, if◌then◌else◌,
}

-- What main prints: one of three errors, that there is no prime, or the header with its two bounds
-- and the primes.
pub data Output : Type 0 where
  not_positive : Output
  reversed : Output
  too_far : Output
  no_prime : Output
  primes : (num1 num2 : ℕ) → List ℕ → Output

-- The flag that the loop over `j` leaves. Each round counts `j` up, so `rounds` bounds them.
unfoldable pub has_divisor : (rounds i j : ℕ) → Bool
has_divisor zero i j = false
has_divisor (suc rounds) i j =
    let rest = has_divisor rounds i (j + 1) in
    if leb j (i / 2) then (if i % j == 0 then true else rest) else false

-- `i` is printed.
unfoldable pub is_printed : ℕ → Bool
is_printed i = not (has_divisor i i 2)

-- The loop over `i`, with as many rounds as there are numbers left.
unfoldable pub primes_from : (rounds i num2 : ℕ) → List ℕ
primes_from zero i num2 = []
primes_from (suc rounds) i num2 =
    let rest = primes_from rounds (i + 1) num2 in
    if ltb i num2 then (if is_printed i then i ∷ rest else rest) else []

abbrev pub report : (num1 num2 : ℕ) → List ℕ → Output
report num1 num2 [] = no_prime
report num1 num2 (i ∷ is) = primes num1 num2 (i ∷ is)

-- Behind the tests for negative numbers.
unfoldable pub check_range : (num1 num2 : ℕ) → Output
check_range num1 num2 =
    let first = if (num1 == 0) || (num1 == 1) then 2 else num1 in
    if ltb num2 num1
    then reversed
    else if ltb 5000 (num2 - num1)
    then too_far
    else report first num2 (primes_from (num2 - first) first num2)

unfoldable pub main : ℤ → ℤ → Output
main (pos num1) (pos num2) = check_range num1 num2
main (pos num1) (negsuc n) = not_positive
main (negsuc n) _ = not_positive
