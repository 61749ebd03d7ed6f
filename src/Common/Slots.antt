-- ===== src/Common/Slots.antt =====
-- Arrays on the heap: what their slots hold, and for how many slots there is room. A write past the
-- end is a fault, `none`.
use cs.Common.{
  ℕ, ◌+◌, ◌≤◌, ◌<◌, ◌≡◌, ◌≢◌, refl, sym, subst, List, [], ◌∷◌, ◌++◌, Option, none, some, length,
  ltb, lt→ltb, ◌==◌, if◌then◌else◌, arith,
}

-- What malloc leaves in a slot, a null pointer, or a pointer to an item.
pub data Slot (A : Type 0) : Type 0 where
  garbage : Slot A
  null : Slot A
  item : A → Slot A

pub record Slots (A : Type 0) : Type 0 where
  pub room : ℕ
  pub slot : ℕ → Slot A

module _ {A : Type 0} where
  -- malloc and realloc
  abbrev pub fresh : ℕ → Slots A
  fresh n = record { room = n; slot = λ k. garbage }

  abbrev pub resize : Slots A → ℕ → Slots A
  resize a n = record a { room = n }

  abbrev pub changed : (ℕ → Slot A) → ℕ → Slot A → ℕ → Slot A
  changed f i x k = if i == k then x else f k

  -- a[i] = x
  unfoldable pub assign : Slots A → ℕ → Slot A → Option (Slots A)
  assign a i x = if ltb i a.room then some (record a { slot = changed a.slot i x }) else none

  pub assign-some :
      (a : Slots A) (i : ℕ) (x : Slot A)
      → i < a.room
      → assign a i x ≡ some (record a { slot = changed a.slot i x })
  unfolding assign
  assign-some a i x h = rw (lt→ltb i a.room h) refl

  pub changed-same : (f : ℕ → Slot A) (i : ℕ) (x : Slot A) → changed f i x i ≡ x
  changed-same f i x = ground arith

  pub changed-other : (f : ℕ → Slot A) (i k : ℕ) (x : Slot A) → k ≢ i → changed f i x k ≡ f k
  changed-other f i k x h = ground arith

  -- The slots from `k` on hold these items.
  abbrev pub Stored : (ℕ → Slot A) → ℕ → List A → Type 0
  Stored f k [] = Unit
  Stored f k (x ∷ xs) = (f k ≡ item x) × Stored f (k + 1) xs

  -- A write behind them leaves them alone.
  pub Stored-changed :
      (f : ℕ → Slot A) (k i : ℕ) (y : Slot A) (xs : List A)
      → k + length xs ≤ i
      → Stored f k xs
      → Stored (changed f i y) k xs
  Stored-changed f k i y [] le h = tt
  Stored-changed f k i y (x ∷ xs) le h = (
    subst (λ c. c ≡ item x) (sym (changed-other f i k y (omega arith))) h.0,
    Stored-changed f (k + 1) i y xs (omega arith) h.1,
  )

  -- One item more behind them.
  pub Stored-append :
      (f : ℕ → Slot A) (k : ℕ) (xs : List A) (y : A)
      → Stored f k xs
      → f (k + length xs) ≡ item y
      → Stored f k (xs ++ (y ∷ []))
  Stored-append f k [] y h e = (subst (λ j. f j ≡ item y) (omega arith) e, tt)
  Stored-append f k (x ∷ xs) y h e =
      (h.0, Stored-append f (k + 1) xs y h.1 (subst (λ j. f j ≡ item y) (omega arith) e))
