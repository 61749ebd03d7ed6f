-- ===== src/Malloc/Layout/Extend.antt =====
-- A change that replaces the last gap of the heap by further items, past its old end.
use cs.Common.{ℕ, ◌+◌, ◌≤◌, ◌<◌, ◌≡◌, sym, ◌∙◌, ◌≢◌, ◌⊎◌, inl, inr, List, [], ◌∷◌, ◌++◌, arith}
use cs.Malloc.Memory.{Memory, next_of, prev_of}
use cs.Malloc.Layout.Links.{
  Item, gap, first_free, last_free, end_of, Holds, IsHeap, le-end_of, end_of-append,
  first_free-append, last_free-append,
}
use cs.Malloc.Layout.Frame.{ends, append-Holds}
use cs.Malloc.Layout.Relink.{Holds-relink_next}
use cs.Malloc.Layout.Replace.{stretch, head_replaced}

-- The change, seen from the items `xs` in front of the gap: their words stay, but for the link
-- behind their last free object, and the sentinel's two links are kept up.
pub record IsExtended (m m' : Memory) (sentinel base : ℕ) (xs its : List Item) : Type 0 where
  pub same :
      (a : ℕ)
      → (a < end_of base xs) ⊎ (a ≡ next_of sentinel)
      → a ≢ next_of (last_free base sentinel xs)
      → a ≢ prev_of sentinel
      → m' a ≡ m a
  pub set_next :
      m' (next_of (last_free base sentinel xs)) ≡ first_free (end_of base xs) its sentinel
  pub set_prev : m' (prev_of sentinel) ≡ last_free (end_of base xs) (last_free base sentinel xs) its
  pub inside : Holds m' (end_of base xs) (last_free base sentinel xs) its sentinel
  pub apart : (sentinel + 32 ≤ base) ⊎ (end_of (end_of base xs) its ≤ sentinel)
  pub fits : end_of (end_of base xs) its < 18446744073709551616

pub IsHeap-extend :
    (m m' : Memory) (s b : ℕ) (xs : List Item) (g : ℕ) (its : List Item)
    → IsHeap m s b (xs ++ (gap g ∷ [] ++ []))
    → IsExtended m m' s b xs its
    → IsHeap m' s b (xs ++ its)
IsHeap-extend m m' s b xs g its h x =
    let c = end_of b xs in
    let l = last_free b s xs in
    let st = stretch m s b xs (gap g ∷ []) [] h in
    let c_ge = le-end_of b xs in
    let e_ge = le-end_of c its in
    let left : Holds m' b s xs (first_free c its s) =
      Holds-relink_next m m' b s xs s (first_free c its s) st.left
        (omega (arith, st.sentinel_outside))
        (λ a u v w. x.same a (inl v) w (omega (arith, st.sentinel_outside))) x.set_next in
    record {
      holds = append-Holds m' b s xs its s left x.inside;
      head =
          head_replaced m m' s b xs s (first_free c its s) (ends m b s xs s st.left)
            (h.head ∙ first_free-append b xs (gap g ∷ []) s) x.set_next
            (λ ne. x.same (s + 16) (inr (omega arith)) (omega arith) (omega arith))
            (omega (arith, st.sentinel_outside))
          ∙ sym (first_free-append b xs its s);
      tail = x.set_prev ∙ sym (last_free-append b s xs its);
      apart = omega (arith, x.apart, end_of-append b xs its);
      fits = omega (arith, x.fits, end_of-append b xs its);
    }
