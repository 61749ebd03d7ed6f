-- ===== src/Malloc/Service.antt =====
-- allocate_object, malloc and free of lab2-src/MyMalloc.c on the row of items.
use cs.Common.{
  ℕ, ◌+◌, ◌-◌, ◌%◌, ◌^◌, ◌≤◌, ◌<◌, ◌≡◌, sym, subst, ap, ◌∙◌, ◌⊎◌, inl, inr, List, [], ◌∷◌, ◌++◌,
  All, Option, some, false, ltb, lt→ltb, if◌then◌else◌, arith,
}
use cs.Malloc.Memory.{Memory, next_of, null}
use cs.Malloc.Objects.{Search, no_fit, rounded_size, chunk_object, find_fit, use_fit, use_chunk}
use cs.Malloc.Interface.{State, serve, allocate_object}
use cs.Malloc.Requests.{rounded_size_bounds}
use cs.Malloc.Layout.{Item, used, free, gap, end_of, IsHeap}
use cs.Malloc.Alloc.{
  count_free, TooSmall, IsFirstFit, find_fit-IsHeap, carve, use_fit-IsHeap, chunk_split-IsHeap,
  chunk_whole-IsHeap,
}

-- The result of allocate_object by what its walk finds.
module _ (fuel sentinel block size : ℕ) (st : State) (list : st.free_list ≡ sentinel) where
  abbrev walk : Search
  walk = find_fit fuel st.memory sentinel (rounded_size size) (st.memory (next_of sentinel))

  -- A request beyond the largest object gets a null pointer, and changes nothing.
  pub allocate_object-too_large :
      chunk_object < rounded_size size
      → allocate_object fuel sentinel block size st ≡ some (null, st)
  unfolding allocate_object
  allocate_object-too_large h = ground arith

  allocate_object-serve :
      {found : Search}
      → rounded_size size ≤ chunk_object
      → walk ≡ found
      → allocate_object fuel sentinel block size st ≡ serve found block (rounded_size size) st
  unfolding allocate_object
  allocate_object-serve h e =
      let small : ltb chunk_object (rounded_size size) ≡ false = ground arith in
      rw small (
        ap
          (λ p.
            serve (find_fit fuel st.memory sentinel (rounded_size size) (st.memory (next_of p)))
              block (rounded_size size) st)
          list
        ∙ ap (λ f. serve f block (rounded_size size) st) e)

-- How `r` bytes at the start of `free n` between `xs` and `ys` are handed out: the pointer, and the
-- state with only the memory changed, which holds the items with the object carved.
abbrev pub Serves : ℕ → ℕ → ℕ → State → List Item → ℕ → List Item → Option (ℕ × State) → Type 0
Serves sentinel base r st xs n ys result =
    (m : Memory) × (result ≡ some (end_of base xs + 32, record st { memory = m }))
    × IsHeap m sentinel base (xs ++ (carve r n ++ ys))

-- First fit. On a heap, with one round of fuel more than there are free objects, allocate_object
-- either hands out the first free object that is large enough, split if at least 56 bytes are left,
-- and leaves a heap; or no free object is large enough and it hands out the start of a new chunk.
pub allocate_object-IsFirstFit :
    (fuel sentinel block base size : ℕ) (st : State) (its : List Item)
    → st.free_list ≡ sentinel
    → IsHeap st.memory sentinel base its
    → count_free its < fuel
    → size + 55 < 18446744073709551616
    → rounded_size size ≤ chunk_object
    → ((xs : List Item) × (n : ℕ) × (ys : List Item) × IsFirstFit (rounded_size size) its xs n ys
        × Serves sentinel base
            (rounded_size size)
            st
            xs
            n
            ys
            (allocate_object fuel sentinel block size st))
      ⊎ (All (TooSmall (rounded_size size)) its
          × (allocate_object fuel sentinel block size st
              ≡ serve no_fit block (rounded_size size) st))
unfolding serve
allocate_object-IsFirstFit fuel s block b size st its list h enough small le =
    let r = rounded_size size in
    let bounds = rounded_size_bounds size small in
    elim (find_fit-IsHeap fuel st.memory s b r its h enough) [
      | inl (none_found, all) ↦
          inr (all, allocate_object-serve fuel s block size st list le none_found)
      | inr (xs, n, ys, first, found) ↦
          let h' : IsHeap st.memory s b (xs ++ (free n ∷ [] ++ ys)) =
            subst (IsHeap st.memory s b) first.position h in
          inl (
            xs,
            n,
            ys,
            first,
            (
              use_fit st.memory (end_of b xs) r,
              allocate_object-serve fuel s block size st list le found,
              use_fit-IsHeap st.memory s b xs n ys h' r (omega (arith, bounds.1)) first.enough
                  bounds.2,
            ),
          )
    ]

-- The items of a new chunk in place of the last gap.
abbrev pub chunk_items : ℕ → ℕ → List Item
chunk_items k r =
    if ltb r 2097200
    then gap k ∷ used r ∷ free (2097200 - r) ∷ gap 16 ∷ []
    else gap k ∷ used r ∷ gap 16 ∷ []

-- A new chunk above the heap, given that at least 48 bytes of it are left or none: the pointer is
-- that of the first object of the chunk, the memory holds the heap with the chunk behind it, and the
-- counters tell of one chunk more. The chunk begins past the last fencepost, at a multiple of 8 from
-- it, and apart from the sentinel.
pub serve-no_fit :
    (sentinel base block g k r : ℕ) (st : State) (xs : List Item)
    → st.free_list ≡ sentinel
    → IsHeap st.memory sentinel base (xs ++ (gap g ∷ [] ++ []))
    → block + 16 ≡ end_of base xs + k
    → 48 ≤ k
    → k % 8 ≡ 0
    → (sentinel + 32 ≤ base) ⊎ (block + 2097248 ≤ sentinel)
    → block + 2097232 < 18446744073709551616
    → 48 ≤ r
    → (r + 48 ≤ 2097200) ⊎ (r ≡ 2097200)
    → r % 8 ≡ 0
    → (m : Memory) × (serve no_fit block r st
        ≡ some (
          end_of base xs + k + 32,
          record st {
            memory = m;
            heap_size = (st.heap_size + 2097248) % 2 ^ 64;
            num_chunks = st.num_chunks + 1;
          },
        ))
      × IsHeap m sentinel base (xs ++ chunk_items k r)
unfolding serve
serve-no_fit s b block g k r st xs list h at above mul apart fits room rest mul_r = (
  use_chunk st.memory s block r,
  ap
        (λ p. some (
          p + 32,
          record st {
            memory = use_chunk st.memory st.free_list block r;
            heap_size = (st.heap_size + 2097248) % 2 ^ 64;
            num_chunks = st.num_chunks + 1;
          },
        ))
        at
      ∙ ap
          (λ p. some (
            end_of b xs + k + 32,
            record st {
              memory = use_chunk st.memory p block r;
              heap_size = (st.heap_size + 2097248) % 2 ^ 64;
              num_chunks = st.num_chunks + 1;
            },
          ))
          list,
  chunk-IsHeap rest,
)
  where
    chunk-IsHeap :
        (r + 48 ≤ 2097200) ⊎ (r ≡ 2097200)
        → IsHeap (use_chunk st.memory s block r) s b (xs ++ chunk_items k r)
    chunk-IsHeap (inl part) =
        rw (lt→ltb r 2097200 (omega arith)) (
          chunk_split-IsHeap st.memory s b xs g block k h at above mul apart fits r room part mul_r)
    chunk-IsHeap (inr whole) =
        subst (λ r. IsHeap (use_chunk st.memory s block r) s b (xs ++ chunk_items k r)) (sym whole)
          (chunk_whole-IsHeap st.memory s b xs g block k h at above mul apart fits)
