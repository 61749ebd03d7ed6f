-- ===== src/Common/Faults.antt =====
-- Code that may fault: `none` is the fault, and a block stops at it.
use mathlib.Core.Path.{◌≡◌, ap, ◌∙◌}
use mathlib.Core.Option.{Option, none, some}

infixl 5 ◌>>=◌
abbrev pub ◌>>=◌ : {A B : Type 0} → Option A → (A → Option B) → Option B
none >>= f = none
some a >>= f = f a

-- The rest of a block behind a part that does not fault.
pub after_some :
    {A B : Type 0} {m : Option A} {a : A} (f : A → Option B) {result : Option B}
    → m ≡ some a
    → f a ≡ result
    → (m >>= f) ≡ result
after_some f e k = ap (λ m. m >>= f) e ∙ k

-- A block whose first part faults.
pub after_none : {A B : Type 0} {m : Option A} (f : A → Option B) → m ≡ none → (m >>= f) ≡ none
after_none f e = ap (λ m. m >>= f) e
