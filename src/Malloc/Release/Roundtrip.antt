-- ===== src/Malloc/Release/Roundtrip.antt =====
-- An object of lab2-src/MyMalloc.c handed out and freed again.
use mathlib.Core.List.{append_assoc}
use native.Mathlib.Decide.{dec_lt}
use cs.Common.{
  ℕ, ◌+◌, ◌-◌, ◌%◌, ◌≤◌, ◌<◌, ◌≡◌, sym, subst, List, [], ◌∷◌, ◌++◌, false, ltb, lt→ltb, arith,
}
use cs.Malloc.Memory.{Memory}
use cs.Malloc.Objects.{use_fit}
use cs.Malloc.Layout.{Item, used, free, extent, tag_status, end_of, IsHeap, end_of-append}
use cs.Malloc.Alloc.{count_free, carve, use_fit-IsHeap}
use cs.Malloc.Release.Merge.{Frees, alone_at, right_at}

carved :
    (m : Memory) (s b : ℕ) (xs : List Item) (L : Item) (n r : ℕ) (rest : List Item)
    → IsHeap m s b (xs ++ (L ∷ free n ∷ rest))
    → 48 ≤ r
    → r ≤ n
    → r % 8 ≡ 0
    → IsHeap (use_fit m (end_of b xs + extent L) r) s b (xs ++ (L ∷ (carve r n ++ rest)))
carved m s b xs L n r rest h room enough mul =
    let past = end_of-append b xs (L ∷ []) in
    let h' = subst (IsHeap m s b) (sym (append_assoc xs (L ∷ []) (free n ∷ rest))) h in
    let k = use_fit-IsHeap m s b (xs ++ (L ∷ [])) n rest h' r room enough mul in
    subst (λ c. IsHeap (use_fit m c r) s b (xs ++ (L ∷ (carve r n ++ rest)))) past
      (subst (IsHeap (use_fit m (end_of b (xs ++ (L ∷ []))) r) s b)
        (append_assoc xs (L ∷ []) (carve r n ++ rest)) k)

-- Freeing at once an object carved from a free one between neighbours in use restores the items of
-- the heap, whether it was split or taken whole.
pub use_fit-free_object :
    (fuel : ℕ) (m : Memory) (s b : ℕ) (xs : List Item) (L R : Item) (n r : ℕ) (ys : List Item)
    → s + 32 ≤ b
    → tag_status L ≡ 1
    → tag_status R ≡ 1
    → IsHeap m s b (xs ++ (L ∷ free n ∷ R ∷ ys))
    → 48 ≤ r
    → r ≤ n
    → r % 8 ≡ 0
    → count_free (xs ++ (L ∷ [])) < fuel
    → Frees fuel
        (use_fit m (end_of b xs + extent L) r)
        s
        b
        (end_of b xs + extent L + 32)
        (xs ++ (L ∷ free n ∷ R ∷ ys))
use_fit-free_object fuel m s b xs L R n r ys below l rt h room enough mul fueled =
    let c = end_of b xs + extent L in
    let k = carved m s b xs L n r (R ∷ ys) h room enough mul in
    elim (dec_lt (n - r) 56) [
      | yes lt ↦
          let k' : IsHeap (use_fit m c r) s b (xs ++ (L ∷ used n ∷ R ∷ ys)) =
            rw (lt→ltb (n - r) 56 lt) at k in
          alone_at fuel (use_fit m c r) s b xs n below L R ys l rt k' fueled
      | no ge ↦
          let big : ltb (n - r) 56 ≡ false = ground arith in
          let k' : IsHeap (use_fit m c r) s b (xs ++ (L ∷ used r ∷ free (n - r) ∷ R ∷ ys)) =
            rw big at k in
          let sum : r + (n - r) ≡ n = omega arith in
          subst (λ k. Frees fuel (use_fit m c r) s b (c + 32) (xs ++ (L ∷ free k ∷ R ∷ ys))) sum
            (right_at fuel (use_fit m c r) s b xs r below L (n - r) (R ∷ ys) l k')
    ]
