-- ===== src/Server/Buffer.antt =====
-- A heap buffer that holds a C string: its bytes, and how many the buffer has room for, the
-- terminating null included. A write past the end is a fault, `none`.
use cs.Common.{
  refl, arith, false, ◌≤◌, ◌>>=◌, ℕ, ◌+◌, ◌<◌, ◌≡◌, ◌∙◌, ap, List, ◌++◌, Option, none, some, length,
  ltb, lt→ltb, if◌then◌else◌,
}

pub record Buffer : Type 0 where
  pub text : List ℕ
  pub capacity : ℕ

-- strdup
abbrev pub duplicate : List ℕ → Buffer
duplicate s = record { text = s; capacity = length s + 1 }

-- realloc; the sources never shrink a buffer below its text
abbrev pub resize : Buffer → ℕ → Buffer
resize b n = record b { capacity = n }

-- strcat
unfoldable pub append : Buffer → List ℕ → Option Buffer
append b s =
    if ltb (length b.text + length s) b.capacity
    then some (record b { text = b.text ++ s })
    else none

-- With room for the text and the null, an append succeeds.
pub append-some :
    (b : Buffer) (s : List ℕ)
    → length b.text + length s < b.capacity
    → append b s ≡ some (record b { text = b.text ++ s })
unfolding append
append-some b s h = rw (lt→ltb _ _ h)

-- The rest of a block behind an append that fits.
pub append_then :
    {B : Type 0} (b : Buffer) (s : List ℕ) (f : Buffer → Option B) {result : Option B}
    → length b.text + length s < b.capacity
    → f (record b { text = b.text ++ s }) ≡ result
    → (append b s >>= f) ≡ result
append_then b s f h e = ap (λ m. m >>= f) (append-some b s h) ∙ e

-- With no room, it is a fault.
pub append-none :
    (b : Buffer) (s : List ℕ) → b.capacity ≤ length b.text + length s → append b s ≡ none
unfolding append
append-none b s h =
    let full : ltb (length b.text + length s) b.capacity ≡ false = ground arith in rw full refl
