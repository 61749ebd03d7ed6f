-- ===== src/Malloc/Release/Cases.antt =====
-- free_object of lab2-src/MyMalloc.c, case by case, as a change of the row of items.
use cs.Common.{ℕ, ◌+◌, ◌-◌, ◌≤◌, ◌<◌, ◌≡◌, ◌≢◌, refl, ◌∙◌, ◌⊎◌, List, [], ◌∷◌, ◌++◌, some, arith}
use cs.Malloc.Memory.{Memory, next_of, prev_of, status_of}
use cs.Malloc.Objects.{
  mark_free, link_behind, free_alone, find_place, free_left, free_right, free_both, free_object,
}
use cs.Malloc.Layout.{
  Item, used, free, end_of, IsHeap, stretch, IsHeap-replace, le-end_of, before, behind, Holds-frame,
  first_free-append,
}
use cs.Malloc.Alloc.{count_free}
use cs.Malloc.Release.Search.{find_place-last}
use cs.Malloc.Release.Writes.{
  linked-same, linked-links, linked-tags, left_merged-same, left_merged-links, left_merged-tags,
  right_merged-same, right_merged-links, right_merged-tags, both_merged-same, both_merged-links,
  both_merged-tags,
}

-- The dispatch on the status of the two neighbours.
module _ (fuel : ℕ) (m : Memory) (s c n : ℕ) (size : m c ≡ n) where
  free_object-alone :
      m (status_of (c - 16)) ≢ 0
      → m (status_of (c + n)) ≢ 0
      → free_object fuel m s (c + 32) ≡ free_alone fuel m s c (c + n - 16)
  unfolding free_object
  free_object-alone a b = let at : c + 32 - 32 ≡ c = omega arith in rw at (rw size (ground arith))

  free_object-left :
      m (status_of (c - 16)) ≡ 0
      → m (status_of (c + n)) ≡ 1
      → free_object fuel m s (c + 32) ≡ some (free_left m c (c + n - 16) (c - 16))
  unfolding free_object
  free_object-left a b =
      let at : c + 32 - 32 ≡ c = omega arith in rw at (rw size (rw a (rw b refl)))

  free_object-right :
      m (status_of (c - 16)) ≡ 1
      → m (status_of (c + n)) ≡ 0
      → free_object fuel m s (c + 32) ≡ some (free_right m c (c + n - 16) (c + n))
  unfolding free_object
  free_object-right a b =
      let at : c + 32 - 32 ≡ c = omega arith in rw at (rw size (rw a (rw b refl)))

  free_object-both :
      m (status_of (c - 16)) ≡ 0
      → m (status_of (c + n)) ≡ 0
      → free_object fuel m s (c + 32) ≡ some (free_both m c (c - 16) (c + n))
  unfolding free_object
  free_object-both a b =
      let at : c + 32 - 32 ≡ c = omega arith in rw at (rw size (rw a (rw b refl)))

-- The four cases, for an object in use between `xs` and `ys`; the sentinel lies below the heap.
module _ (fuel : ℕ) (m : Memory) (s b : ℕ) (xs : List Item) (n : ℕ) (ys : List Item)
    (below : s + 32 ≤ b) where
  -- The walk runs over the marked memory, which holds the same links.
  find_place-before :
      IsHeap m s b (xs ++ (used n ∷ [] ++ ys))
      → count_free xs < fuel
      → find_place fuel (mark_free m (end_of b xs) (end_of b xs + n - 16)) s (end_of b xs) s
        ≡ some (before s b xs)
  unfolding mark_free
  find_place-before h enough =
      let c = end_of b xs in
      let st = stretch m s b xs (used n ∷ []) ys h in
      let c_ge = le-end_of b xs in
      let q = behind s b xs (used n ∷ []) ys in
      let room : 48 ≤ n = st.middle.0.room.0 in
      find_place-last fuel _ s c b s xs q (Holds-frame m _ b s xs q st.left (λ a u v. ground arith))
        (ground (arith, h.head, first_free-append b xs (used n ∷ ys) s)) (omega arith)
        (omega (arith, c_ge)) (omega arith) (omega (arith, st.behind_is)) enough

  pub alone-IsHeap :
      IsHeap m s b (xs ++ (used n ∷ [] ++ ys))
      → m (status_of (end_of b xs - 16)) ≡ 1
      → m (status_of (end_of b xs + n)) ≡ 1
      → count_free xs < fuel
      → (m' : Memory) × (free_object fuel m s (end_of b xs + 32) ≡ some m')
        × IsHeap m' s b (xs ++ (free n ∷ [] ++ ys))
  unfolding free_alone
  alone-IsHeap h left right enough =
      let c = end_of b xs in
      let l = before s b xs in
      let q = behind s b xs (used n ∷ []) ys in
      let st = stretch m s b xs (used n ∷ []) ys h in
      let c_ge = le-end_of b xs in
      let e_ge = le-end_of (c + n) ys in
      let t = st.middle.0 in
      let l_out : (l + 32 ≤ c) ⊎ (c + n ≤ l) = omega (arith, st.before_is, c_ge) in
      let q_out : (q + 32 ≤ c) ⊎ (c + n ≤ q) = omega (arith, st.behind_is, c_ge) in
      let apart : next_of l ≢ prev_of q = omega (arith, st.before_is, st.behind_is, c_ge) in
      let links = linked-links m c n l q t st.next_before l_out q_out apart in
      (
        link_behind (mark_free m c (c + n - 16)) c l,
        free_object-alone fuel m s c n t.size (omega arith) (omega arith)
            ∙ rw (find_place-before h enough, free_alone) refl,
        IsHeap-replace m _ s b xs (used n ∷ []) (free n ∷ []) ys h (record {
          same = linked-same m c n l q t st.next_before l_out q_out apart;
          set_next = links.0;
          set_prev = links.1;
          stop = refl;
          inside = (linked-tags m c n l q t st.next_before l_out q_out apart, links.2, links.3, tt);
        }),
      )

  pub left-IsHeap :
      (k : ℕ)
      → IsHeap m s b (xs ++ (free k ∷ used n ∷ [] ++ ys))
      → m (status_of (end_of b xs + k + n)) ≡ 1
      → (m' : Memory) × (free_object fuel m s (end_of b xs + k + 32) ≡ some m')
        × IsHeap m' s b (xs ++ (free (k + n) ∷ [] ++ ys))
  left-IsHeap k h right =
      let c = end_of b xs in
      let l = before s b xs in
      let q = behind s b xs (free k ∷ used n ∷ []) ys in
      let st = stretch m s b xs (free k ∷ used n ∷ []) ys h in
      let c_ge = le-end_of b xs in
      let e_ge = le-end_of (c + k + n) ys in
      let tl = st.middle.0 in
      let t = st.middle.3.0 in
      let low : 16 ≤ c = omega (arith, c_ge) in
      let fits : k + n < 18446744073709551616 = omega (arith, st.stop_fits, e_ge) in
      let same = left_merged-same m c k n l q tl t st.middle.1 st.middle.2 low fits in
      let links = left_merged-links m c k n l q tl t st.middle.1 st.middle.2 low fits in
      let end : c + (k + n) ≡ c + k + n = omega arith in
      (
        free_left m (c + k) (c + k + n - 16) (c + k - 16),
        free_object-left fuel m s (c + k) n t.size tl.footer_status right,
        IsHeap-replace m _ s b xs (free k ∷ used n ∷ []) (free (k + n) ∷ []) ys h (record {
          same = λ a out u v. same a out;
          set_next =
              same (l + 16) (omega (arith, st.before_is, c_ge, e_ge, tl.room.0)) ∙ st.next_before;
          set_prev = same (q + 24) (omega (arith, st.behind_is, c_ge)) ∙ st.prev_behind;
          stop = end;
          inside = (
            left_merged-tags m c k n l q tl t st.middle.1 st.middle.2 low fits,
            links.0,
            links.1,
            tt,
          );
        }),
      )

  pub right-IsHeap :
      (k : ℕ)
      → IsHeap m s b (xs ++ (used n ∷ free k ∷ [] ++ ys))
      → m (status_of (end_of b xs - 16)) ≡ 1
      → (m' : Memory) × (free_object fuel m s (end_of b xs + 32) ≡ some m')
        × IsHeap m' s b (xs ++ (free (n + k) ∷ [] ++ ys))
  right-IsHeap k h left =
      let c = end_of b xs in
      let l = before s b xs in
      let q = behind s b xs (used n ∷ free k ∷ []) ys in
      let st = stretch m s b xs (used n ∷ free k ∷ []) ys h in
      let c_ge = le-end_of b xs in
      let e_ge = le-end_of (c + n + k) ys in
      let t = st.middle.0 in
      let tr = st.middle.1.0 in
      let prev = st.middle.1.1 in
      let next = st.middle.1.2 in
      let l_out : (l + 32 ≤ c) ⊎ (c + n + k ≤ l) = omega (arith, st.before_is, c_ge) in
      let q_out : (q + 32 ≤ c) ⊎ (c + n + k ≤ q) = omega (arith, st.behind_is, c_ge) in
      let apart : next_of l ≢ prev_of q = omega (arith, st.before_is, st.behind_is, c_ge) in
      let fits : n + k < 18446744073709551616 = omega (arith, st.stop_fits, e_ge) in
      let links = right_merged-links m c n k l q t tr prev next l_out q_out apart fits in
      (
        free_right m c (c + n - 16) (c + n),
        free_object-right fuel m s c n t.size left tr.status,
        IsHeap-replace m _ s b xs (used n ∷ free k ∷ []) (free (n + k) ∷ []) ys h (record {
          same = right_merged-same m c n k l q t tr prev next l_out q_out apart fits;
          set_next = links.0;
          set_prev = links.1;
          stop = omega arith;
          inside = (
            right_merged-tags m c n k l q t tr prev next l_out q_out apart fits,
            links.2,
            links.3,
            tt,
          );
        }),
      )

  pub both-IsHeap :
      (j k : ℕ)
      → IsHeap m s b (xs ++ (free j ∷ used n ∷ free k ∷ [] ++ ys))
      → (m' : Memory) × (free_object fuel m s (end_of b xs + j + 32) ≡ some m')
        × IsHeap m' s b (xs ++ (free (j + n + k) ∷ [] ++ ys))
  both-IsHeap j k h =
      let c = end_of b xs in
      let l = before s b xs in
      let q = behind s b xs (free j ∷ used n ∷ free k ∷ []) ys in
      let st = stretch m s b xs (free j ∷ used n ∷ free k ∷ []) ys h in
      let c_ge = le-end_of b xs in
      let e_ge = le-end_of (c + j + n + k) ys in
      let tl = st.middle.0 in
      let prev = st.middle.1 in
      let t = st.middle.3.0 in
      let tr = st.middle.3.1.0 in
      let next = st.middle.3.1.2 in
      let low : 16 ≤ c = omega (arith, c_ge) in
      let q_out : (q + 32 ≤ c) ⊎ (c + j + n + k ≤ q) = omega (arith, st.behind_is, c_ge) in
      let fits : j + n + k < 18446744073709551616 = omega (arith, st.stop_fits, e_ge) in
      let same = both_merged-same m c j n k l q tl t tr prev next q_out low fits in
      let links = both_merged-links m c j n k l q tl t tr prev next q_out low fits in
      (
        free_both m (c + j) (c + j - 16) (c + j + n),
        free_object-both fuel m s (c + j) n t.size tl.footer_status tr.status,
        IsHeap-replace m _ s b xs (free j ∷ used n ∷ free k ∷ []) (free (j + n + k) ∷ []) ys h
            (record {
              same = λ a out u v. same a out v;
              set_next =
                  same (l + 16) (omega (arith, st.before_is, c_ge, e_ge, tl.room.0))
                    (omega (arith, st.before_is, st.behind_is, c_ge, e_ge))
                  ∙ st.next_before;
              set_prev = links.0;
              stop = omega arith;
              inside = (
                both_merged-tags m c j n k l q tl t tr prev next q_out low fits,
                links.1,
                links.2,
                tt,
              );
            }),
      )
