-- ===== src/Malloc/Alloc/Grow.antt =====
-- A new chunk of allocate_object of lab2-src/MyMalloc.c: the row of items afterwards.
use cs.Common.{
  ℕ, ◌+◌, ◌-◌, ◌%◌, ◌≤◌, ◌<◌, ◌≡◌, ◌≢◌, refl, sym, subst, ap, ◌∙◌, ◌⊎◌, List, [], ◌∷◌, ◌++◌, arith,
}
use cs.Malloc.Memory.{Memory, next_of, prev_of}
use cs.Malloc.Objects.{use_chunk, write_fenceposts, split_chunk, whole_chunk}
use cs.Malloc.Layout.{
  Item, used, free, gap, last_free, end_of, IsHeap, IsTagged, stretch, IsHeap-extend, le-end_of,
}
use cs.Malloc.Alloc.Chunk.{
  fence-same, fence-words, split_chunk-same, split_chunk-links, split_chunk-front, split_chunk-back,
  whole_chunk-same, whole_chunk-tags,
}

use_chunk-split :
    (m : Memory) (s block o r : ℕ)
    → block + 16 ≡ o
    → r + 48 ≤ 2097200
    → use_chunk m s block r ≡ split_chunk (write_fenceposts m block) s o r
unfolding use_chunk
use_chunk-split m s block o r at lt = rw at (ground arith)

use_chunk-whole :
    (m : Memory) (s block o : ℕ)
    → block + 16 ≡ o
    → use_chunk m s block 2097200 ≡ whole_chunk (write_fenceposts m block) o 2097200
unfolding use_chunk
use_chunk-whole m s block o at = rw at refl

-- A chunk at `block` above the heap of `xs` and a last gap: the gap grows by `k` bytes up to the
-- object of the chunk, which lies apart from the sentinel.
module _ (m : Memory) (s b : ℕ) (xs : List Item) (g block k : ℕ)
    (h : IsHeap m s b (xs ++ (gap g ∷ [] ++ []))) (at : block + 16 ≡ end_of b xs + k)
    (above : 48 ≤ k) (mul : k % 8 ≡ 0) (apart : (s + 32 ≤ b) ⊎ (block + 2097248 ≤ s))
    (fits : block + 2097232 < 18446744073709551616) where
  abbrev fenced : Memory
  fenced = write_fenceposts m block

  -- The free list's last object, away from the chunk.
  last_at :
      ((last_free b s xs ≡ s) ⊎ ((b ≤ last_free b s xs) × (last_free b s xs + 48 ≤ end_of b xs)))
      × (m (prev_of s) ≡ last_free b s xs)
      × IsTagged m (end_of b xs) (gap g)
  last_at =
      let st = stretch m s b xs (gap g ∷ []) [] h in
      (omega (arith, st.before_is), st.prev_behind, st.middle.0)

  fenced_out : (a : ℕ) → (a < block) ⊎ (block + 2097248 ≤ a) → fenced a ≡ m a
  fenced_out a out = fence-same m block a (omega arith)

  fenced_tail : fenced (prev_of s) ≡ last_free b s xs
  fenced_tail = fenced_out (s + 24) (omega (arith, le-end_of b xs)) ∙ last_at.1

  links_apart : next_of (last_free b s xs) ≢ prev_of s
  links_apart = omega (arith, last_at.0, le-end_of b xs)

  -- The gap, given a memory that keeps the fenceposts.
  grown_gap :
      (m' : Memory)
      → ((a : ℕ)
          → (a < end_of b xs + 16) ⊎ ((block ≤ a) × (a < block + 16))
          → a ≢ next_of (last_free b s xs)
          → a ≢ prev_of s
          → m' a ≡ fenced a)
      → IsTagged m' (end_of b xs) (gap k)
  grown_gap m' same =
      let e = end_of b xs in
      let c_ge = le-end_of b xs in
      let words = fence-words m block in
      let t = last_at.2 in
      let front : e + k - 16 ≡ block = omega arith in
      record {
        room = (omega arith, mul);
        size =
            same e (omega arith) (omega (arith, last_at.0, c_ge)) (omega (arith, c_ge))
            ∙ fenced_out e (omega arith)
            ∙ t.size;
        status =
            same (e + 8) (omega arith) (omega (arith, last_at.0, c_ge)) (omega (arith, c_ge))
            ∙ fenced_out (e + 8) (omega arith)
            ∙ t.status;
        footer_size =
            ap m' front
            ∙ same block (omega arith) (omega (arith, last_at.0, c_ge)) (omega (arith, c_ge))
            ∙ words.0;
        footer_status =
            ap (λ p. m' (p + 8)) front
            ∙ same (block + 8) (omega arith) (omega (arith, last_at.0, c_ge)) (omega (arith, c_ge))
            ∙ words.1;
      }

  -- The end fencepost at the end `p` of the chunk's object.
  grown_end :
      (m' : Memory) (p : ℕ)
      → p ≡ block + 2097216
      → ((a : ℕ)
          → block + 2097216 ≤ a
          → a < block + 2097232
          → a ≢ next_of (last_free b s xs)
          → a ≢ prev_of s
          → m' a ≡ fenced a)
      → IsTagged m' p (gap 16)
  grown_end m' p end same =
      let e = end_of b xs in
      let c_ge = le-end_of b xs in
      let words = fence-words m block in
      let size : m' p ≡ 0 =
        ap m' end
        ∙ same (block + 2097216) (omega arith) (omega arith) (omega (arith, last_at.0, c_ge))
            (omega (arith, c_ge))
        ∙ words.2 in
      let status : m' (p + 8) ≡ 1 =
        ap (λ q. m' (q + 8)) end
        ∙ same (block + 2097216 + 8) (omega arith) (omega arith) (omega (arith, last_at.0, c_ge))
            (omega (arith, c_ge))
        ∙ words.3 in
      let front : p + 16 - 16 ≡ p = omega arith in
      record {
        room = (omega arith, omega arith);
        size = size;
        status = status;
        footer_size = ap m' front ∙ size;
        footer_status = ap (λ q. m' (q + 8)) front ∙ status;
      }

  pub chunk_split-IsHeap :
      (r : ℕ)
      → 48 ≤ r
      → r + 48 ≤ 2097200
      → r % 8 ≡ 0
      → IsHeap
          (use_chunk m s block r)
          s
          b
          (xs ++ (gap k ∷ used r ∷ free (2097200 - r) ∷ gap 16 ∷ []))
  chunk_split-IsHeap r room rest mul_r =
      let e = end_of b xs in
      let l = last_free b s xs in
      let o = e + k in
      let m' = split_chunk fenced s o r in
      let c_ge = le-end_of b xs in
      let tail = fenced_tail in
      let far = links_apart in
      let l_out : (l + 32 ≤ o) ⊎ (o + 2097200 ≤ l) = omega (arith, last_at.0, c_ge) in
      let s_out : (s + 32 ≤ o) ⊎ (o + 2097200 ≤ s) = omega (arith, c_ge) in
      let same = split_chunk-same fenced s l o r tail far l_out s_out room rest in
      let links = split_chunk-links fenced s l o r tail far l_out s_out room rest in
      subst (λ m'. IsHeap m' s b (xs ++ (gap k ∷ used r ∷ free (2097200 - r) ∷ gap 16 ∷ [])))
        (sym (use_chunk-split m s block o r at rest))
        (IsHeap-extend m m' s b xs g (gap k ∷ used r ∷ free (2097200 - r) ∷ gap 16 ∷ []) h (record {
          same = λ a out u v. same a (omega (arith, c_ge)) u v ∙ fenced_out a (omega (arith, c_ge));
          set_next = links.0;
          set_prev = links.1;
          inside = (
            grown_gap m' (λ a out u v. same a (omega arith) u v),
            (
              split_chunk-front fenced s l o r tail far l_out s_out room rest mul_r,
              (
                split_chunk-back fenced s l o r tail far l_out s_out room rest mul_r,
                links.2,
                links.3,
                (
                  grown_end m' (o + r + (2097200 - r)) (omega arith)
                      (λ a lo hi u v. same a (omega arith) u v),
                  tt,
                ),
              ),
            ),
          );
          apart = omega arith;
          fits = omega arith;
        }))

  pub chunk_whole-IsHeap :
      IsHeap (use_chunk m s block 2097200) s b (xs ++ (gap k ∷ used 2097200 ∷ gap 16 ∷ []))
  chunk_whole-IsHeap =
      let e = end_of b xs in
      let l = last_free b s xs in
      let o = e + k in
      let m' = whole_chunk fenced o 2097200 in
      let c_ge = le-end_of b xs in
      let same = whole_chunk-same fenced o in
      let st = stretch m s b xs (gap g ∷ []) [] h in
      subst (λ m'. IsHeap m' s b (xs ++ (gap k ∷ used 2097200 ∷ gap 16 ∷ [])))
        (sym (use_chunk-whole m s block o at))
        (IsHeap-extend m m' s b xs g (gap k ∷ used 2097200 ∷ gap 16 ∷ []) h (record {
          same = λ a out u v. same a (omega (arith, c_ge)) ∙ fenced_out a (omega (arith, c_ge));
          set_next =
              same (l + 16) (omega (arith, last_at.0, c_ge))
              ∙ fenced_out (l + 16) (omega (arith, last_at.0, c_ge))
              ∙ st.next_before;
          set_prev = same (s + 24) (omega (arith, c_ge)) ∙ fenced_tail;
          inside = (
            grown_gap m' (λ a out u v. same a (omega arith)),
            (
              whole_chunk-tags fenced o,
              (grown_end m' (o + 2097200) (omega arith) (λ a lo hi u v. same a (omega arith)), tt),
            ),
          );
          apart = omega arith;
          fits = omega arith;
        }))
