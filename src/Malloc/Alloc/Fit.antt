-- ===== src/Malloc/Alloc/Fit.antt =====
-- The walk of allocate_object along the free list, against the row of items.
use native.Mathlib.Decide.{dec_le}
use cs.Common.{
  ℕ, zero, suc, ◌+◌, ◌≤◌, ◌<◌, ◌≡◌, ◌≢◌, refl, sym, ap, subst, ◌∙◌, ◌⊎◌, inl, inr, List, [], ◌∷◌,
  ◌++◌, All, arith,
}
use cs.Malloc.Memory.{Memory, next_of, size_of}
use cs.Malloc.Objects.{Search, fit, no_fit, find_fit}
use cs.Malloc.Layout.{Item, used, free, gap, first_free, end_of, Holds, IsHeap, le-end_of}

abbrev pub count_free : List Item → ℕ
count_free [] = 0
count_free (used n ∷ its) = count_free its
count_free (free n ∷ its) = suc (count_free its)
count_free (gap n ∷ its) = count_free its

-- Not a free object of at least `r` bytes.
abbrev pub TooSmall : ℕ → Item → Type 0
TooSmall r (used n) = Unit
TooSmall r (free n) = n < r
TooSmall r (gap n) = Unit

-- `free n` behind `xs` is the first free object with at least `r` bytes.
pub record IsFirstFit (r : ℕ) (its xs : List Item) (n : ℕ) (ys : List Item) : Type 0 where
  pub position : its ≡ xs ++ (free n ∷ ys)
  pub enough : r ≤ n
  pub skipped : All (TooSmall r) xs

-- What the walk from the first free object of a row finds.
abbrev pub Finds : ℕ → ℕ → List Item → Search → Type 0
Finds r p its found =
    ((found ≡ no_fit) × All (TooSmall r) its)
    ⊎ ((xs : List Item) × (n : ℕ) × (ys : List Item) × IsFirstFit r its xs n ys
        × (found ≡ fit (end_of p xs)))

Finds-cons :
    {r p : ℕ} (it : Item) {its : List Item} {found : Search}
    → TooSmall r it
    → Finds r (end_of p (it ∷ [])) its found
    → Finds r p (it ∷ its) found
Finds-cons it small (inl (none_found, all)) = inl (none_found, (small, all))
Finds-cons it small (inr (xs, n, ys, first, found)) = inr (
  it ∷ xs,
  n,
  ys,
  record {
    position = ap (λ l. it ∷ l) first.position;
    enough = first.enough;
    skipped = (small, first.skipped);
  },
  found,
)

find_fit-stop : (fuel : ℕ) (m : Memory) (s r : ℕ) → 0 < fuel → find_fit fuel m s r s ≡ no_fit
unfolding find_fit
find_fit-stop zero m s r h = absurd (omega arith)
find_fit-stop (suc fuel) m s r h = ground arith

find_fit-fit :
    (fuel : ℕ) (m : Memory) (s r p : ℕ)
    → 0 < fuel
    → p ≢ s
    → r ≤ m (size_of p)
    → find_fit fuel m s r p ≡ fit p
unfolding find_fit
find_fit-fit zero m s r p h ne le = absurd (omega arith)
find_fit-fit (suc fuel) m s r p h ne le = ground arith

find_fit-next :
    (fuel : ℕ) (m : Memory) (s r p : ℕ)
    → p ≢ s
    → m (size_of p) < r
    → find_fit (suc fuel) m s r p ≡ find_fit fuel m s r (m (next_of p))
unfolding find_fit
find_fit-next fuel m s r p ne lt = ground arith

pub find_fit-Finds :
    (fuel : ℕ) (m : Memory) (s r p prev : ℕ) (its : List Item)
    → Holds m p prev its s
    → (s + 32 ≤ p) ⊎ (end_of p its ≤ s)
    → count_free its < fuel
    → Finds r p its (find_fit fuel m s r (first_free p its s))
find_fit-Finds fuel m s r p prev [] h out lt = inl (find_fit-stop fuel m s r lt, tt)
find_fit-Finds fuel m s r p prev (used n ∷ its) h out lt =
    Finds-cons (used n) tt (find_fit-Finds fuel m s r (p + n) prev its h.1 (omega arith) lt)
find_fit-Finds fuel m s r p prev (gap n ∷ its) h out lt =
    Finds-cons (gap n) tt (find_fit-Finds fuel m s r (p + n) prev its h.1 (omega arith) lt)
find_fit-Finds zero m s r p prev (free n ∷ its) h out lt = absurd (omega arith)
find_fit-Finds (suc fuel) m s r p prev (free n ∷ its) h out lt =
    let apart : p ≢ s = omega (arith, h.0.room, le-end_of (p + n) its) in
    elim (dec_le r n) [
      | yes le ↦ inr (
        [],
        n,
        its,
        record { position = refl; enough = le; skipped = tt },
        find_fit-fit (suc fuel) m s r p (omega arith) apart (omega (arith, h.0.size)),
      )
      | no gt ↦
          subst (Finds r p (free n ∷ its))
            (sym (
              find_fit-next fuel m s r p apart (omega (arith, h.0.size))
              ∙ ap (find_fit fuel m s r) h.2))
            (Finds-cons (free n) (omega arith)
              (find_fit-Finds fuel m s r (p + n) p its h.3 (omega arith) (omega arith)))
    ]

-- On a heap the walk from the head of the free list ends, given one round more than there are free
-- objects: at the first one that is large enough, or at the sentinel if there is none.
pub find_fit-IsHeap :
    (fuel : ℕ) (m : Memory) (s b r : ℕ) (its : List Item)
    → IsHeap m s b its
    → count_free its < fuel
    → Finds r b its (find_fit fuel m s r (m (next_of s)))
find_fit-IsHeap fuel m s b r its h lt =
    subst (λ p. Finds r b its (find_fit fuel m s r p)) (sym h.head)
      (find_fit-Finds fuel m s r b s its h.holds h.apart lt)
