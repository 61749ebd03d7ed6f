-- ===== src/Malloc/Objects.antt =====
-- allocate_object, free_object and get_memory_from_os of lab2-src/MyMalloc.c over a word memory.
-- `sentinel` is &free_list_sentinel, `block` the address that sbrk returns if it is called. A
-- size_t wraps at 2^64; pointers are plain numbers, since the code forms none past a mapped chunk.
use cs.Common.{
  ℕ, zero, suc, ◌+◌, ◌-◌, ◌*◌, ◌/◌, ◌%◌, ◌^◌, not, ◌&&◌, Option, none, some, ltb, leb, ◌==◌,
  if◌then◌else◌,
}
use cs.Malloc.Memory.{
  Memory, write, unallocated, allocated, null, header_bytes, footer_bytes, size_of, status_of,
  next_of, prev_of,
}

-- ARENA_SIZE, SIZE_PRECISION and MINIMUM_SIZE
abbrev pub arena_size : ℕ
arena_size = 2097152

abbrev pub size_precision : ℕ
size_precision = 8

abbrev pub minimum_size : ℕ
minimum_size = 8

-- The largest object of one chunk: `max_size` and `real_size` in allocate_object.
abbrev pub chunk_object : ℕ
chunk_object = 2097200

-- The smallest remainder that is split off: `min_size` in allocate_object.
abbrev pub min_object : ℕ
min_object = 56

-- The size of an object for a request: tags added, rounded up to a multiple of 8, as a size_t.
unfoldable pub rounded_size : ℕ → ℕ
rounded_size size =
    let size' = if ltb size minimum_size then minimum_size else size in
    (size' + header_bytes + footer_bytes + (size_precision - 1))
    % 2 ^ 64
    / size_precision
    * size_precision

-- object_size(): `ptr` points behind the header.
unfoldable pub object_size : Memory → ℕ → ℕ
object_size m ptr = m (size_of (ptr - header_bytes))

-- What the walk along the free list finds.
pub data Search : Type 0 where
  fit : ℕ → Search
  no_fit : Search
  out_of_fuel : Search

-- The `while` of allocate_object: the first object of at least `rounded` bytes.
unfoldable pub find_fit : (fuel : ℕ) → Memory → (sentinel rounded current : ℕ) → Search
unfolding object_size
find_fit zero m sentinel rounded current = out_of_fuel
find_fit (suc fuel) m sentinel rounded current =
    let rest = find_fit fuel m sentinel rounded (m (next_of current)) in
    if current == sentinel
    then no_fit
    else if leb rounded (object_size m (current + header_bytes))
    then fit current
    else rest

-- The whole object at `current` is handed out and unlinked.
unfoldable pub take_whole : Memory → (current : ℕ) → Memory
unfolding object_size write
take_whole m current =
    let m = write m (status_of current) allocated in
    let footer = current + object_size m (current + header_bytes) - footer_bytes in
    let m = write m (status_of footer) allocated in
    let m = write m (next_of (m (prev_of current))) (m (next_of current)) in
    let m = write m (prev_of (m (next_of current))) (m (prev_of current)) in
    let m = write m (prev_of current) null in write m (next_of current) null

-- The first `rounded` bytes are handed out; the rest takes the object's place in the list.
unfoldable pub split : Memory → (current rounded : ℕ) → Memory
unfolding write
split m current rounded =
    let header = current + rounded in
    let cur_footer = current + rounded - footer_bytes in
    let footer = current + m (size_of current) - footer_bytes in
    let m = write m (size_of header) (m (size_of current) - rounded) in
    let m = write m (size_of footer) (m (size_of header)) in
    let m = write m (status_of header) unallocated in
    let m = write m (status_of footer) unallocated in
    let m = write m (size_of current) rounded in
    let m = write m (status_of current) allocated in
    let m = write m (size_of cur_footer) (m (size_of current)) in
    let m = write m (status_of cur_footer) allocated in
    let m = write m (next_of (m (prev_of current))) header in
    let m = write m (prev_of header) (m (prev_of current)) in
    let m = write m (next_of header) (m (next_of current)) in
    let m = write m (prev_of (m (next_of current))) header in
    let m = write m (prev_of current) null in write m (next_of current) null

-- The object found is handed out whole if what is left of it is too small.
unfoldable pub use_fit : Memory → (current rounded : ℕ) → Memory
unfolding object_size take_whole split
use_fit m current rounded =
    let remainder = object_size m (current + header_bytes) - rounded in
    if ltb remainder min_object then take_whole m current else split m current rounded

-- Fenceposts of a chunk at `block`: a footer in front, a header behind, both allocated, of size 0.
unfoldable pub write_fenceposts : Memory → (block : ℕ) → Memory
unfolding write
write_fenceposts m block =
    let end = block + footer_bytes + (header_bytes + arena_size) + footer_bytes in
    let m = write m (status_of block) allocated in
    let m = write m (size_of block) 0 in
    let m = write m (status_of end) allocated in
    let m = write m (size_of end) 0 in
    let m = write m (next_of end) null in write m (prev_of end) null

-- The first `rounded` bytes of a new chunk's object are handed out; the rest goes to the end of the
-- free list.
unfoldable pub split_chunk : Memory → (free_list object rounded : ℕ) → Memory
unfolding write
split_chunk m free_list object rounded =
    let footer = object + rounded - footer_bytes in
    let next_header = object + rounded in
    let next_footer = object + header_bytes + arena_size in
    let m = write m (status_of next_header) unallocated in
    let m = write m (size_of next_header) (chunk_object - rounded) in
    let m = write m (size_of next_footer) (m (size_of next_header)) in
    let m = write m (status_of next_footer) unallocated in
    let m = write m (prev_of next_header) (m (prev_of free_list)) in
    let m = write m (prev_of free_list) next_header in
    let m = write m (next_of (m (prev_of next_header))) next_header in
    let m = write m (next_of next_header) free_list in
    let m = write m (status_of object) allocated in
    let m = write m (size_of object) rounded in
    let m = write m (prev_of object) null in
    let m = write m (next_of object) null in
    let m = write m (size_of footer) (m (size_of object)) in write m (status_of footer) allocated

-- The whole of it is handed out.
unfoldable pub whole_chunk : Memory → (object rounded : ℕ) → Memory
unfolding write
whole_chunk m object rounded =
    let footer = object + rounded - footer_bytes in
    let m = write m (status_of object) allocated in
    let m = write m (status_of footer) allocated in
    let m = write m (size_of object) rounded in
    let m = write m (size_of footer) rounded in
    let m = write m (prev_of object) null in write m (next_of object) null

-- A new chunk at `block`, used for an object of `rounded` bytes.
unfoldable pub use_chunk : Memory → (free_list block rounded : ℕ) → Memory
unfolding write_fenceposts split_chunk whole_chunk
use_chunk m free_list block rounded =
    let object = block + footer_bytes in
    let m = write_fenceposts m block in
    if ltb rounded chunk_object
    then split_chunk m free_list object rounded
    else if rounded == chunk_object
    then whole_chunk m object rounded
    else m

-- The place in the free list for `current`: the loop of free_object's first case, from `temp`.
unfoldable pub find_place : (fuel : ℕ) → Memory → (sentinel current temp : ℕ) → Option ℕ
find_place zero m sentinel current temp = none
find_place (suc fuel) m sentinel current temp =
    let rest = find_place fuel m sentinel current (m (next_of temp)) in
    if m (next_of temp) == sentinel
    then some temp
    else if ltb temp current && ltb current (m (next_of temp))
    then some temp
    else rest

-- The links of case 1, behind the place `temp` that the loop found.
unfoldable pub link_behind : Memory → (current temp : ℕ) → Memory
unfolding write
link_behind m current temp =
    let m = write m (prev_of (m (next_of temp))) current in
    let m = write m (next_of current) (m (next_of temp)) in
    let m = write m (next_of temp) current in write m (prev_of current) temp

-- The two status words that cases 1 to 3 clear first.
unfoldable pub mark_free : Memory → (current footer : ℕ) → Memory
unfolding write
mark_free m current footer =
    let m = write m (status_of current) unallocated in write m (status_of footer) unallocated

-- Case 1: neither neighbour is free. `none` means that the fuel ran out.
unfoldable pub free_alone : (fuel : ℕ) → Memory → (sentinel current footer : ℕ) → Option Memory
unfolding mark_free find_place link_behind
free_alone fuel m sentinel current footer =
    let m = mark_free m current footer in
    elim (find_place fuel m sentinel current sentinel) [
      | none ↦ none
      | some temp ↦ some (link_behind m current temp)
    ]

-- Case 2: the object is added to the free object on its left.
unfoldable pub free_left : Memory → (current footer left_footer : ℕ) → Memory
unfolding write mark_free
free_left m current footer left_footer =
    let m = mark_free m current footer in
    let left_header = left_footer - m (size_of left_footer) + footer_bytes in
    let m =
      write m (size_of left_header) ((m (size_of left_header) + m (size_of current)) % 2 ^ 64) in
    write m (size_of footer) (m (size_of left_header))

-- Case 3: the object takes the place of the free object on its right.
unfoldable pub free_right : Memory → (current footer right_header : ℕ) → Memory
unfolding write mark_free
free_right m current footer right_header =
    let m = mark_free m current footer in
    let m = write m (size_of current) ((m (size_of current) + m (size_of right_header)) % 2 ^ 64) in
    let right_footer = right_header + m (size_of right_header) - footer_bytes in
    let m = write m (size_of right_footer) (m (size_of current)) in
    let m = write m (prev_of current) (m (prev_of right_header)) in
    let m = write m (next_of current) (m (next_of right_header)) in
    let m = write m (next_of (m (prev_of right_header))) current in
    let m = write m (prev_of (m (next_of right_header))) current in
    let m = write m (prev_of right_header) null in write m (next_of right_header) null

-- Case 4: the object and the free one on its right are added to the free one on its left.
unfoldable pub free_both : Memory → (current left_footer right_header : ℕ) → Memory
unfolding write
free_both m current left_footer right_header =
    let left_header = left_footer - m (size_of left_footer) + footer_bytes in
    let right_footer = right_header + m (size_of right_header) - footer_bytes in
    let new_size =
      (m (size_of left_footer) + m (size_of current) + m (size_of right_header)) % 2 ^ 64 in
    let m = write m (size_of left_header) new_size in
    let m = write m (size_of right_footer) new_size in
    let m = write m (next_of left_header) (m (next_of right_header)) in
    let m = write m (prev_of (m (next_of right_header))) left_header in
    let m = write m (prev_of right_header) null in write m (next_of right_header) null

-- free_object(): `ptr` points behind the header.
unfoldable pub free_object : (fuel : ℕ) → Memory → (sentinel ptr : ℕ) → Option Memory
unfolding free_alone free_left free_right free_both
free_object fuel m sentinel ptr =
    let current = ptr - header_bytes in
    let footer = current + m (size_of current) - footer_bytes in
    let left_footer = current - footer_bytes in
    let right_header = current + m (size_of current) in
    let left = m (status_of left_footer) in
    let right = m (status_of right_header) in
    if not (left == unallocated) && not (right == unallocated)
    then free_alone fuel m sentinel current footer
    else if left == unallocated && right == allocated
    then some (free_left m current footer left_footer)
    else if right == unallocated && left == allocated
    then some (free_right m current footer right_header)
    else some (free_both m current left_footer right_header)
