-- ===== src/Malloc/Interface.antt =====
-- The allocator's state and its C interface: initialize, allocate_object, malloc, free, calloc and
-- realloc of lab2-src/MyMalloc.c. The mutex is held around each use of the state, so an operation is
-- one step; realloc alone gives it up between its two uses, and is modelled with no other thread
-- coming in between. `none` means that a loop's fuel ran out.
use mathlib.Core.Option
use cs.Common.{
  ℕ, zero, suc, ◌+◌, ◌-◌, ◌*◌, ◌%◌, ◌^◌, Bool, true, not, List, [], ◌∷◌, Option, none, some, ltb,
  ◌==◌, same_text, if◌then◌else◌,
}
use cs.Malloc.Memory.{
  Memory, write, unallocated, sentinel_status, null, header_bytes, footer_bytes, size_of, status_of,
  next_of, prev_of,
}
use cs.Malloc.Objects.{
  arena_size, chunk_object, rounded_size, object_size, Search, fit, no_fit, out_of_fuel, find_fit,
  use_fit, write_fenceposts, use_chunk, free_object,
}

-- The static variables of the file, and the words of memory.
pub record State : Type 0 where
  pub memory : Memory
  pub free_list : ℕ
  pub mem_start : ℕ
  pub heap_size : ℕ
  pub num_chunks : ℕ
  pub verbose : Bool
  pub malloc_calls : ℕ
  pub free_calls : ℕ
  pub realloc_calls : ℕ
  pub calloc_calls : ℕ

-- VERBOSE_DISABLE_STRING
abbrev pub disable_text : List ℕ
disable_text = b'N' ∷ b'O' ∷ []

-- The bytes of one chunk with its two fenceposts.
abbrev pub chunk_bytes : ℕ
chunk_bytes = 2097248

-- `block` is what sbrk returns.
unfoldable pub get_memory_from_os : (block size : ℕ) → State → ℕ × State
get_memory_from_os block size s =
    (block, record s { heap_size = (s.heap_size + size) % 2 ^ 64; num_chunks = s.num_chunks + 1 })

-- The first free object, and the sentinel, over a chunk with its fenceposts.
unfoldable pub first_object : Memory → (sentinel header : ℕ) → Memory
unfolding write
first_object m sentinel header =
    let footer = header + arena_size + header_bytes in
    let m = write m (status_of header) unallocated in
    let m = write m (size_of header) chunk_object in
    let m = write m (status_of footer) unallocated in
    let m = write m (size_of footer) (m (size_of header)) in
    let m = write m (prev_of sentinel) header in
    let m = write m (next_of sentinel) header in
    let m = write m (next_of header) sentinel in
    let m = write m (prev_of header) sentinel in
    let m = write m (status_of sentinel) sentinel_status in write m (size_of sentinel) 0

-- initialize(): `env` is the value of MALLOCVERBOSE.
unfoldable pub initialize : (sentinel block : ℕ) → (env : Option (List ℕ)) → State → State
unfolding get_memory_from_os write_fenceposts first_object same_text
initialize sentinel block env s =
    let verbose : Bool = elim env [ none ↦ true | some v ↦ not (same_text v disable_text) ] in
    let (new_block, s) = get_memory_from_os block chunk_bytes s in
    let header = new_block + footer_bytes in
    record s {
      memory = first_object (write_fenceposts s.memory new_block) sentinel header;
      free_list = sentinel;
      mem_start = header;
      verbose = verbose;
    }

-- The rest of allocate_object behind the walk along the free list.
unfoldable pub serve : (found : Search) → (block rounded : ℕ) → State → Option (ℕ × State)
unfolding get_memory_from_os
serve (fit current) block rounded s =
    some (current + header_bytes, record s { memory = use_fit s.memory current rounded })
serve no_fit block rounded s =
    let (new_block, s) = get_memory_from_os block chunk_bytes s in
    some (
      new_block + footer_bytes + header_bytes,
      record s { memory = use_chunk s.memory s.free_list new_block rounded },
    )
serve out_of_fuel block rounded s = none

unfoldable pub allocate_object : (fuel sentinel block size : ℕ) → State → Option (ℕ × State)
allocate_object fuel sentinel block size s =
    let rounded = rounded_size size in
    let found = find_fit fuel s.memory sentinel rounded (s.memory (next_of s.free_list)) in
    if ltb chunk_object rounded then some (null, s) else serve found block rounded s

unfoldable pub malloc : (fuel sentinel block size : ℕ) → State → Option (ℕ × State)
unfolding allocate_object
malloc fuel sentinel block size s =
    allocate_object fuel sentinel block size (record s { malloc_calls = s.malloc_calls + 1 })

-- free_object on the state.
unfoldable pub release : (fuel sentinel ptr : ℕ) → State → Option State
unfolding free_object
release fuel sentinel ptr s = elim (free_object fuel s.memory sentinel ptr) [
  | none ↦ none
  | some m ↦ some (record s { memory = m })
]

unfoldable pub free : (fuel sentinel ptr : ℕ) → State → Option State
unfolding release
free fuel sentinel ptr s =
    let s = record s { free_calls = s.free_calls + 1 } in
    if ptr == null then some s else release fuel sentinel ptr s

-- memcpy and memset of the C library, on the words of memory.
module _ (memcpy : Memory → (to from bytes : ℕ) → Memory)
    (memset : Memory → (to value bytes : ℕ) → Memory) where
  unfoldable pub calloc : (fuel sentinel block num_elems elem_size : ℕ) → State → Option (ℕ × State)
  unfolding allocate_object
  calloc fuel sentinel block num_elems elem_size s =
      let size = num_elems * elem_size % 2 ^ 64 in
      elim (allocate_object fuel sentinel block size
        (record s { calloc_calls = s.calloc_calls + 1 })) [
          | none ↦ none
          | some (ptr, s) ↦
              if ptr == null
              then some (ptr, s)
              else some (ptr, record s { memory = memset s.memory ptr 0 size })
        ]

  unfoldable pub realloc : (fuel sentinel block ptr size : ℕ) → State → Option (ℕ × State)
  unfolding allocate_object release object_size
  realloc fuel sentinel block ptr size s =
      elim (allocate_object fuel sentinel block size
        (record s { realloc_calls = s.realloc_calls + 1 })) [
          | none ↦ none
          | some (new_ptr, s) ↦
              let old = object_size s.memory ptr in
              let size_to_copy = if ltb size old then size else old in
              let copied = record s { memory = memcpy s.memory new_ptr ptr size_to_copy } in
              let freed : Option (ℕ × State) = elim (release fuel sentinel ptr copied) [
                | none ↦ none
                | some s ↦ some (new_ptr, s)
              ] in
              if ptr == null then some (new_ptr, s) else freed
        ]

-- print_list(): offset and size of each free object, from `ptr` on. The objects lie above mem_start.
unfoldable pub print_list :
    (fuel : ℕ) → Memory → (free_list mem_start ptr : ℕ) → Option (List (ℕ × ℕ))
print_list zero m free_list mem_start ptr = none
print_list (suc fuel) m free_list mem_start ptr =
    let rest = print_list fuel m free_list mem_start (m (next_of ptr)) in
    if ptr == free_list
    then some []
    else Option.map (λ shown. (ptr - mem_start, m (size_of ptr)) ∷ shown) rest
