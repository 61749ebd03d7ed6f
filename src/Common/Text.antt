-- ===== src/Common/Text.antt =====
-- C strings as lists of bytes, decimal output of numbers, and atoi.
use Prim.Native.Char.{code}
use Prim.Native.String.{String}
use Prim.Native.Nat.{◌≤◌, ℕ, zero, suc, ◌+◌, ◌-◌, ◌*◌, ◌/◌, ◌%◌, ◌<◌}
use mathlib.Core.Path.{◌≡◌, ◌∙◌}
use mathlib.Core.Bool.{Bool, true, false, ◌&&◌}
use mathlib.Core.Logic.{◌↔◌, inl, inr}
use mathlib.Core.List.{List, [], ◌∷◌}
use native.Mathlib.Omega.{arith}
use cs.Common.Lists.{length}
use cs.Common.Tests.{ltb, leb, ◌==◌, if◌then◌else◌, Bool-cases}

-- The bytes of a literal; every literal of the sources is ASCII.
abbrev pub codes : String → List ℕ
codes String.[] = []
codes (String.◌∷◌ c s) = code c ∷ codes s

-- The string in a buffer: its bytes up to the first null.
unfoldable pub c_string : List ℕ → List ℕ
c_string [] = []
c_string (c ∷ cs) = let rest = c_string cs in if c == 0 then [] else c ∷ rest

-- strcmp(a, b) == 0
unfoldable pub same_text : List ℕ → List ℕ → Bool
same_text [] [] = true
same_text (x ∷ xs) (y ∷ ys) = x == y && same_text xs ys
same_text _ _ = false

pub same_text_iff : (a b : List ℕ) → (same_text a b ≡ true) ↔ (a ≡ b)
unfolding same_text
same_text_iff (x ∷ a) (y ∷ b) = ground (arith, same_text_iff a b)
same_text_iff _ _ = ground arith

-- sprintf("%d"): the digits of `n` in front of `rest`. The fuel is the number of digits at most.
unfoldable pub decimal_onto : ℕ → ℕ → List ℕ → List ℕ
decimal_onto zero n rest = rest
decimal_onto (suc fuel) n rest =
    let more = decimal_onto fuel (n / 10) ((48 + n % 10) ∷ rest) in
    if ltb n 10 then (48 + n) ∷ rest else more

unfoldable pub decimal : ℕ → List ℕ
unfolding decimal_onto
decimal n = decimal_onto (suc n) n []

-- The digits that atoi reads: it stops at the first other byte.
unfoldable pub digits_value : ℕ → List ℕ → ℕ
digits_value acc [] = acc
digits_value acc (c ∷ cs) =
    let rest = digits_value (acc * 10 + (c - 48)) cs in if leb 48 c && leb c 57 then rest else acc

-- On texts of digits the value of a number in front of `rest` is read back.
digits_value-decimal_onto :
    (fuel n : ℕ) (rest : List ℕ)
    → n < fuel
    → digits_value 0 (decimal_onto fuel n rest) ≡ digits_value n rest
unfolding digits_value decimal_onto
digits_value-decimal_onto zero n rest h = elim h [ ]
digits_value-decimal_onto (suc fuel) n rest h = elim (Bool-cases (ltb n 10)) [
  | inl small ↦ rw small (ground arith)
  | inr big ↦
      rw big (
        digits_value-decimal_onto fuel (n / 10) ((48 + n % 10) ∷ rest) (ground arith)
        ∙ ground arith)
]

-- What is printed is read back.
pub digits_value-decimal : (n : ℕ) → digits_value 0 (decimal n) ≡ n
unfolding decimal digits_value
digits_value-decimal n = digits_value-decimal_onto (suc n) n [] (omega arith)

length-decimal_onto :
    (fuel n : ℕ) (rest : List ℕ)
    → n < fuel
    → length (decimal_onto fuel n rest) ≤ length rest + 1 + n / 10
unfolding decimal_onto
length-decimal_onto zero n rest h = elim h [ ]
length-decimal_onto (suc fuel) n rest h =
    ground (arith, length-decimal_onto fuel (n / 10) ((48 + n % 10) ∷ rest))

-- A number has fewer digits than its value, from 2 on.
pub length-decimal_lt : (n : ℕ) → 2 ≤ n → length (decimal n) < n
unfolding decimal
length-decimal_lt n h = omega (arith, length-decimal_onto (suc n) n [])

decimal_onto_small :
    (fuel n : ℕ) (rest : List ℕ)
    → n < fuel
    → n < 10
    → length (decimal_onto fuel n rest) ≡ length rest + 1
unfolding decimal_onto
decimal_onto_small zero n rest h k = elim h [ ]
decimal_onto_small (suc fuel) n rest h k = ground arith

decimal_onto_middle :
    (fuel n : ℕ) (rest : List ℕ)
    → n < fuel
    → n < 100
    → length (decimal_onto fuel n rest) ≤ length rest + 2
unfolding decimal_onto
decimal_onto_middle zero n rest h k = elim h [ ]
decimal_onto_middle (suc fuel) n rest h k =
    ground (arith, decimal_onto_small fuel (n / 10) ((48 + n % 10) ∷ rest))

decimal_onto_large :
    (fuel n : ℕ) (rest : List ℕ)
    → n < fuel
    → n < 1000
    → length (decimal_onto fuel n rest) ≤ length rest + 3
unfolding decimal_onto
decimal_onto_large zero n rest h k = elim h [ ]
decimal_onto_large (suc fuel) n rest h k =
    ground (arith, decimal_onto_middle fuel (n / 10) ((48 + n % 10) ∷ rest))

-- A number of three digits.
pub length-decimal : (n : ℕ) → n < 1000 → length (decimal n) ≤ 3
unfolding decimal
length-decimal n h = decimal_onto_large (suc n) n [] (omega arith) h
