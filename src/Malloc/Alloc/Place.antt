-- ===== src/Malloc/Alloc/Place.antt =====
-- The use that allocate_object makes of the object found: the row of items afterwards.
use native.Mathlib.Decide.{dec_lt}
use cs.Common.{
  ℕ, ◌+◌, ◌-◌, ◌%◌, ◌≤◌, ◌<◌, ◌≡◌, refl, sym, subst, List, [], ◌∷◌, ◌++◌, arith, ltb, lt→ltb, false,
  if◌then◌else◌,
}
use cs.Malloc.Memory.{Memory}
use cs.Malloc.Objects.{use_fit, object_size, take_whole, split}
use cs.Malloc.Layout.{
  Item, used, free, end_of, IsHeap, stretch, IsHeap-replace, le-end_of, before, behind,
}
use cs.Malloc.Alloc.Writes.{
  IsFree, split-same, split-links, split-front, split-back, take_whole-same, take_whole-links,
  take_whole-tags,
}

-- A free object of `n` bytes from which `r` are handed out.
abbrev pub carve : ℕ → ℕ → List Item
carve r n = if ltb (n - r) 56 then used n ∷ [] else used r ∷ free (n - r) ∷ []

use_fit-whole : (m : Memory) (c n r : ℕ) → m c ≡ n → n - r < 56 → use_fit m c r ≡ take_whole m c
unfolding use_fit object_size
use_fit-whole m c n r e lt =
    let at : c + 32 - 32 ≡ c = omega arith in rw at (rw e (rw (lt→ltb _ _ lt)))

use_fit-split : (m : Memory) (c n r : ℕ) → m c ≡ n → 56 ≤ n - r → use_fit m c r ≡ split m c r
unfolding use_fit object_size
use_fit-split m c n r e le =
    let at : c + 32 - 32 ≡ c = omega arith in
    let big : ltb (n - r) 56 ≡ false = ground arith in rw at (rw e (rw big))

module _ (m : Memory) (s b : ℕ) (xs : List Item) (n : ℕ) (ys : List Item)
    (h : IsHeap m s b (xs ++ (free n ∷ [] ++ ys))) where
  stretch-IsFree : IsFree m (end_of b xs) n (before s b xs) (behind s b xs (free n ∷ []) ys)
  stretch-IsFree =
      let st = stretch m s b xs (free n ∷ []) ys h in
      let c_ge = le-end_of b xs in
      let e_ge = le-end_of (end_of b xs + n) ys in
      record {
        tags = st.middle.0;
        prev = st.middle.1;
        next = st.middle.2;
        before_out = omega (arith, st.before_is, st.sentinel_outside, e_ge);
        behind_out = omega (arith, st.behind_is, st.sentinel_outside, c_ge, e_ge);
        apart = omega (arith, st.before_is, st.behind_is, st.sentinel_outside, c_ge, e_ge);
      }

  take_whole-IsHeap : IsHeap (take_whole m (end_of b xs)) s b (xs ++ (used n ∷ [] ++ ys))
  take_whole-IsHeap =
      let c = end_of b xs in
      let l = before s b xs in
      let q = behind s b xs (free n ∷ []) ys in
      let f = stretch-IsFree in
      IsHeap-replace m (take_whole m c) s b xs (free n ∷ []) (used n ∷ []) ys h (record {
        same = take_whole-same m c n l q f;
        set_next = (take_whole-links m c n l q f).0;
        set_prev = (take_whole-links m c n l q f).1;
        stop = refl;
        inside = (take_whole-tags m c n l q f, tt);
      })

  split-IsHeap :
      (r : ℕ)
      → 48 ≤ r
      → r + 56 ≤ n
      → r % 8 ≡ 0
      → IsHeap (split m (end_of b xs) r) s b (xs ++ (used r ∷ free (n - r) ∷ [] ++ ys))
  split-IsHeap r room rest mul =
      let c = end_of b xs in
      let l = before s b xs in
      let q = behind s b xs (free n ∷ []) ys in
      let f = stretch-IsFree in
      let links = split-links m c n l q r f room rest in
      IsHeap-replace m (split m c r) s b xs (free n ∷ []) (used r ∷ free (n - r) ∷ []) ys h
        (record {
          same = split-same m c n l q r f room rest;
          set_next = links.0;
          set_prev = links.1;
          stop = omega arith;
          inside = (
            split-front m c n l q r f room rest mul,
            (split-back m c n l q r f room rest mul, links.2, links.3, tt),
          );
        })

  pub use_fit-IsHeap :
      (r : ℕ)
      → 48 ≤ r
      → r ≤ n
      → r % 8 ≡ 0
      → IsHeap (use_fit m (end_of b xs) r) s b (xs ++ (carve r n ++ ys))
  use_fit-IsHeap r room enough mul =
      let c = end_of b xs in
      let size = stretch-IsFree.tags.size in
      elim (dec_lt (n - r) 56) [
        | yes lt ↦
            subst (λ m'. IsHeap m' s b (xs ++ (carve r n ++ ys)))
              (sym (use_fit-whole m c n r size lt)) (rw (lt→ltb _ _ lt) take_whole-IsHeap)
        | no ge ↦
            let big : ltb (n - r) 56 ≡ false = ground arith in
            subst (λ m'. IsHeap m' s b (xs ++ (carve r n ++ ys)))
              (sym (use_fit-split m c n r size (omega arith)))
              (rw big (split-IsHeap r room (omega arith) mul))
      ]
