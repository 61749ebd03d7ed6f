-- ===== src/Primes/Tests.antt =====
-- The theorems about lab1/src1.c at concrete ranges, and a run.
use cs.Common.{◌⊎◌, pos, ℕ, ◌≡◌, ◌<◌, ◌+◌, ◌↔◌, refl, List, [], ◌∷◌, arith}
use cs.Primes.{
  main, primes, check_range, primes_from, is_printed, has_divisor, not_positive, reversed, too_far,
  report,
}
use cs.Primes.Division.{IsNegative, IsPrimeRange, lower, main-IsPrimeRange, main_errors}

main-IsPrimeRange_example :
    (is : List ℕ) × IsPrimeRange 1 12 is × (main (pos 1) (pos 12) ≡ report (lower 1) 12 is)
main-IsPrimeRange_example = main-IsPrimeRange 1 12 (omega arith) (omega arith)

main_errors_example :
    ((main (pos 9) (pos 3) ≡ not_positive) ↔ (IsNegative (pos 9) ⊎ IsNegative (pos 3)))
    × ((main (pos 9) (pos 3) ≡ reversed) ↔ (3 < 9))
    × ((main (pos 9) (pos 3) ≡ too_far) ↔ (9 + 5000 < 3))
main_errors_example = main_errors (pos 9) (pos 3)

primes_shown : main (pos 1) (pos 12) ≡ primes 2 12 (2 ∷ 3 ∷ 5 ∷ 7 ∷ 11 ∷ [])
unfolding main check_range primes_from is_printed has_divisor
primes_shown = refl
