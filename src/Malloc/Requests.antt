-- ===== src/Malloc/Requests.antt =====
-- The size arithmetic of allocate_object, and initialize, of lab2-src/MyMalloc.c.
use cs.Common.{ℕ, ◌+◌, ◌-◌, ◌%◌, ◌≤◌, ◌<◌, ◌≡◌, refl, ap, ◌∙◌, ◌⊎◌, List, [], ◌∷◌, Option, arith}
use cs.Malloc.Memory.{Memory, status_of, next_of, prev_of}
use cs.Malloc.Objects.{rounded_size, use_chunk, write_fenceposts, chunk_object}
use cs.Malloc.Interface.{State, initialize, first_object, get_memory_from_os}
use cs.Malloc.Layout.{free, gap, IsHeap, IsTagged}
use cs.Malloc.Alloc.{fence-words}

pub rounded_size_bounds :
    (size : ℕ)
    → size + 55 < 18446744073709551616
    → (size + 48 ≤ rounded_size size)
      × (56 ≤ rounded_size size)
      × (rounded_size size % 8 ≡ 0)
      × ((rounded_size size < size + 56) ⊎ (rounded_size size ≡ 56))
unfolding rounded_size
rounded_size_bounds size h = ground arith

-- A request within 55 bytes of 2^64 wraps to an object of at most 48 bytes, which has no room for
-- any of them and passes the test against the largest object.
pub rounded_size_wraps :
    (size : ℕ)
    → size < 18446744073709551616
    → 18446744073709551616 ≤ size + 55
    → (rounded_size size ≤ 48) × (rounded_size size < chunk_object)
unfolding rounded_size
rounded_size_wraps size h k = ground arith

module _ (m : Memory) (s o : ℕ) (apart : (s + 32 ≤ o) ⊎ (o + 2097200 ≤ s)) where
  first_object-same :
      (a : ℕ) → (a < o) ⊎ (o + 2097200 ≤ a) → (a < s) ⊎ (s + 32 ≤ a) → first_object m s o a ≡ m a
  unfolding first_object
  first_object-same a out u = ground arith

  first_object-links :
      (first_object m s o (next_of s) ≡ o)
      × (first_object m s o (prev_of s) ≡ o)
      × (first_object m s o (next_of o) ≡ s)
      × (first_object m s o (prev_of o) ≡ s)
  unfolding first_object
  first_object-links = (ground arith, ground arith, ground arith, ground arith)

  first_object-tags : IsTagged (first_object m s o) o (free 2097200)
  unfolding first_object
  first_object-tags = record {
    room = (omega arith, omega arith);
    size = ground arith;
    status = ground arith;
    footer_size = ground arith;
    footer_status = ground arith;
  }

-- A gap of 16 bytes is one fencepost.
fencepost : (m : Memory) (p : ℕ) → m p ≡ 0 → m (p + 8) ≡ 1 → IsTagged m p (gap 16)
fencepost m p a b =
    let same : p + 16 - 16 ≡ p = omega arith in
    record {
      room = (omega arith, omega arith);
      size = a;
      status = b;
      footer_size = ap m same ∙ a;
      footer_status = ap (λ q. m (q + 8)) same ∙ b;
    }

-- After initialize the heap is one free object of the arena's size between two fenceposts, the free
-- list holds it alone, and the counters tell of one chunk more. The sentinel lies outside the chunk.
pub initialize-IsHeap :
    (sentinel block : ℕ) (env : Option (List ℕ)) (st : State)
    → (sentinel + 32 ≤ block) ⊎ (block + 2097248 ≤ sentinel)
    → block + 2097248 < 18446744073709551616
    → IsHeap
        (initialize sentinel block env st).memory
        sentinel
        block
        (gap 16 ∷ free 2097200 ∷ gap 16 ∷ [])
      × ((initialize sentinel block env st).free_list ≡ sentinel)
      × ((initialize sentinel block env st).mem_start ≡ block + 16)
      × ((initialize sentinel block env st).num_chunks ≡ st.num_chunks + 1)
unfolding initialize get_memory_from_os
initialize-IsHeap s block env st apart fits =
    let o = block + 16 in
    let f = write_fenceposts st.memory block in
    let m = first_object f s o in
    let out : (s + 32 ≤ o) ⊎ (o + 2097200 ≤ s) = omega arith in
    let same = first_object-same f s o out in
    let links = first_object-links f s o out in
    let words = fence-words st.memory block in
    let end : o + 2097200 ≡ block + 2097216 = omega arith in
    let end_status : o + 2097200 + 8 ≡ block + 2097216 + 8 = omega arith in
    (
      record {
        holds = (
          fencepost m block (same block (omega arith) (omega arith) ∙ words.0)
              (same (block + 8) (omega arith) (omega arith) ∙ words.1),
          (
            first_object-tags f s o out,
            links.3,
            links.2,
            (
              fencepost m (o + 2097200)
                  (same (o + 2097200) (omega arith) (omega arith) ∙ ap f end ∙ words.2)
                  (same (o + 2097200 + 8) (omega arith) (omega arith) ∙ ap f end_status ∙ words.3),
              tt,
            ),
          ),
        );
        head = links.0;
        tail = links.1;
        apart = omega arith;
        fits = omega arith;
      },
      refl,
      refl,
      refl,
    )

overrun :
    (m : Memory) (s block : ℕ)
    → (s + 32 ≤ block) ⊎ (block + 2097248 ≤ s)
    → use_chunk m s block 2097192 (status_of (block + 2097216)) ≡ s
unfolding use_chunk
overrun m s block apart = ground arith

-- A request of 2097137 to 2097144 bytes that no free object fits leaves 8 bytes of the new chunk:
-- the header made for them runs over the end fencepost, whose status becomes the address of the
-- sentinel instead of ALLOCATED.
pub use_chunk_overrun :
    (m : Memory) (s block size : ℕ)
    → 2097137 ≤ size
    → size ≤ 2097144
    → (s + 32 ≤ block) ⊎ (block + 2097248 ≤ s)
    → use_chunk m s block (rounded_size size) (status_of (block + 2097216)) ≡ s
unfolding rounded_size
use_chunk_overrun m s block size lo hi apart =
    let r : rounded_size size ≡ 2097192 = ground arith in rw r (overrun m s block apart)
