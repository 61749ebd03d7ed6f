-- ===== src/Malloc/Release/Merge.antt =====
-- free_object of lab2-src/MyMalloc.c as one operation on the row of items.
use mathlib.Core.List.{append_assoc}
use cs.Common.{ℕ, ◌+◌, ◌-◌, ◌≤◌, ◌<◌, ◌≡◌, refl, sym, subst, ap, ◌∙◌, List, [], ◌∷◌, ◌++◌, some}
use cs.Malloc.Memory.{Memory, status_of}
use cs.Malloc.Objects.{free_object}
use cs.Malloc.Layout.{
  Item, used, free, gap, extent, tag_status, end_of, Holds, IsHeap, IsTagged, Holds-append,
  end_of-append,
}
use cs.Malloc.Alloc.{count_free}
use cs.Malloc.Release.Cases.{alone-IsHeap, left-IsHeap, right-IsHeap, both-IsHeap}

-- What becomes of an object in use, of `n` bytes, and its two neighbours.
abbrev pub merge : Item → ℕ → Item → List Item
merge (free j) n (free k) = free (j + n + k) ∷ []
merge (free j) n (used k) = free (j + n) ∷ used k ∷ []
merge (free j) n (gap k) = free (j + n) ∷ gap k ∷ []
merge (used j) n (free k) = used j ∷ free (n + k) ∷ []
merge (used j) n (used k) = used j ∷ free n ∷ used k ∷ []
merge (used j) n (gap k) = used j ∷ free n ∷ gap k ∷ []
merge (gap j) n (free k) = gap j ∷ free (n + k) ∷ []
merge (gap j) n (used k) = gap j ∷ free n ∷ used k ∷ []
merge (gap j) n (gap k) = gap j ∷ free n ∷ gap k ∷ []

head-IsTagged :
    (m : Memory) (p prev : ℕ) (it : Item) (its : List Item) (stop : ℕ)
    → Holds m p prev (it ∷ its) stop
    → IsTagged m p it
head-IsTagged m p prev (used n) its stop h = h.0
head-IsTagged m p prev (free n) its stop h = h.0
head-IsTagged m p prev (gap n) its stop h = h.0

pub IsTagged-at :
    (m : Memory) (s b : ℕ) (xs : List Item) (it : Item) (ys : List Item)
    → IsHeap m s b (xs ++ it ∷ ys)
    → IsTagged m (end_of b xs) it
IsTagged-at m s b xs it ys h =
    head-IsTagged m _ _ it ys s (Holds-append m b s xs (it ∷ ys) s h.holds).1

-- `free_object` succeeds and leaves a heap of the items `its`.
abbrev pub Frees : ℕ → Memory → ℕ → ℕ → ℕ → List Item → Type 0
Frees fuel m s b ptr its = (m' : Memory) × (free_object fuel m s ptr ≡ some m') × IsHeap m' s b its

module _ (fuel : ℕ) (m : Memory) (s b : ℕ) (xs : List Item) (n : ℕ) (below : s + 32 ≤ b) where
  -- The left neighbour moved over to the items in front.
  module _ (it : Item) (rest : List Item) (h : IsHeap m s b (xs ++ (it ∷ rest))) where
    past_it : end_of b (xs ++ (it ∷ [])) ≡ end_of b xs + extent it
    past_it = end_of-append b xs (it ∷ [])

    moved : IsHeap m s b ((xs ++ (it ∷ [])) ++ rest)
    moved = subst (IsHeap m s b) (sym (append_assoc xs (it ∷ []) rest)) h

    left_status : tag_status it ≡ 1 → m (status_of (end_of b (xs ++ (it ∷ [])) - 16)) ≡ 1
    left_status e =
        ap (λ p. m (status_of (p - 16))) past_it
        ∙ (IsTagged-at m s b xs it rest h).footer_status
        ∙ e

    back :
        (its : List Item)
        → Frees fuel m s b (end_of b (xs ++ (it ∷ [])) + 32) ((xs ++ (it ∷ [])) ++ its)
        → Frees fuel m s b (end_of b xs + extent it + 32) (xs ++ (it ∷ its))
    back its (m', e, h') = (
      m',
      ap (λ p. free_object fuel m s (p + 32)) (sym past_it) ∙ e,
      subst (IsHeap m' s b) (append_assoc xs (it ∷ []) its) h',
    )

  -- Neither neighbour is free.
  pub alone_at :
      (L R : Item) (ys : List Item)
      → tag_status L ≡ 1
      → tag_status R ≡ 1
      → IsHeap m s b (xs ++ (L ∷ used n ∷ R ∷ ys))
      → count_free (xs ++ (L ∷ [])) < fuel
      → Frees fuel m s b (end_of b xs + extent L + 32) (xs ++ (L ∷ free n ∷ R ∷ ys))
  alone_at L R ys l r h enough =
      let h' = moved L (used n ∷ R ∷ ys) h in
      let right = (Holds-append m b s (xs ++ (L ∷ [])) (used n ∷ R ∷ ys) s h'.holds).1.1 in
      back L (used n ∷ R ∷ ys) h (free n ∷ R ∷ ys) (
        alone-IsHeap fuel m s b (xs ++ (L ∷ [])) n (R ∷ ys) below h'
          (left_status L (used n ∷ R ∷ ys) h l) ((head-IsTagged m _ _ R ys s right).status ∙ r)
          enough)

  -- Only the right one is.
  pub right_at :
      (L : Item) (k : ℕ) (ys : List Item)
      → tag_status L ≡ 1
      → IsHeap m s b (xs ++ (L ∷ used n ∷ free k ∷ ys))
      → Frees fuel m s b (end_of b xs + extent L + 32) (xs ++ (L ∷ free (n + k) ∷ ys))
  right_at L k ys l h =
      let rest = used n ∷ free k ∷ ys in
      back L rest h (free (n + k) ∷ ys) (
        right-IsHeap fuel m s b (xs ++ (L ∷ [])) n ys below k (moved L rest h)
          (left_status L rest h l))

  -- Only the left one is.
  left_at :
      (k : ℕ) (R : Item) (ys : List Item)
      → tag_status R ≡ 1
      → IsHeap m s b (xs ++ (free k ∷ used n ∷ R ∷ ys))
      → Frees fuel m s b (end_of b xs + k + 32) (xs ++ (free (k + n) ∷ R ∷ ys))
  left_at k R ys r h =
      let inside = (Holds-append m b s xs (free k ∷ used n ∷ R ∷ ys) s h.holds).1 in
      left-IsHeap fuel m s b xs n (R ∷ ys) below k h
        ((head-IsTagged m _ _ R ys s inside.3.1).status ∙ r)

  -- Freeing the object behind `L` and in front of `R` merges it with those of them that are free,
  -- and leaves a heap: the tags agree, and the list links exactly the free objects, in the order of
  -- their addresses. The loop of the first case ends within its fuel, one round more than there are
  -- free objects in front.
  pub free_object-merge :
      (L R : Item) (ys : List Item)
      → IsHeap m s b (xs ++ (L ∷ used n ∷ R ∷ ys))
      → count_free (xs ++ (L ∷ [])) < fuel
      → Frees fuel m s b (end_of b xs + extent L + 32) (xs ++ (merge L n R ++ ys))
  free_object-merge (free j) (free k) ys h enough = both-IsHeap fuel m s b xs n ys below j k h
  free_object-merge (free j) (used k) ys h enough = left_at j (used k) ys refl h
  free_object-merge (free j) (gap k) ys h enough = left_at j (gap k) ys refl h
  free_object-merge (used j) (free k) ys h enough = right_at (used j) k ys refl h
  free_object-merge (gap j) (free k) ys h enough = right_at (gap j) k ys refl h
  free_object-merge (used j) (used k) ys h enough = alone_at (used j) (used k) ys refl refl h enough
  free_object-merge (used j) (gap k) ys h enough = alone_at (used j) (gap k) ys refl refl h enough
  free_object-merge (gap j) (used k) ys h enough = alone_at (gap j) (used k) ys refl refl h enough
  free_object-merge (gap j) (gap k) ys h enough = alone_at (gap j) (gap k) ys refl refl h enough
