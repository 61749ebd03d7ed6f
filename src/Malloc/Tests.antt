-- ===== src/Malloc/Tests.antt =====
-- The theorems about lab2-src/MyMalloc.c at a heap of one chunk, and runs of the operations.
use cs.Common.{
  ℕ, ◌+◌, ◌%◌, ◌≤◌, ◌<◌, ◌≡◌, refl, inl, ◌⊎◌, List, [], ◌∷◌, All, Option, none, some, false, arith,
}
use cs.Malloc.Memory.{Memory, status_of, next_of}
use cs.Malloc.Objects.{
  no_fit, rounded_size, chunk_object, find_fit, use_fit, use_chunk, free_object,
}
use cs.Malloc.Interface
use cs.Malloc.Interface.{State, initialize, allocate_object, malloc, serve, print_list}
use cs.Malloc.Requests.{rounded_size_wraps, initialize-IsHeap, use_chunk_overrun}
use cs.Malloc.Layout.{Item, used, free, gap, IsHeap}
use cs.Malloc.Alloc.{TooSmall, IsFirstFit, Finds, find_fit-IsHeap, use_fit-IsHeap}
use cs.Malloc.Release.{Frees, free_object-merge, use_fit-free_object}
use cs.Malloc.Service.{Serves, allocate_object-IsFirstFit, serve-no_fit}

abbrev blank : State
blank = record {
  memory = λ a. 0;
  free_list = 0;
  mem_start = 0;
  heap_size = 0;
  num_chunks = 0;
  verbose = false;
  malloc_calls = 0;
  free_calls = 0;
  realloc_calls = 0;
  calloc_calls = 0;
}

-- The sentinel at 256, the first chunk at 4096.
abbrev started : State
started = initialize 256 4096 none blank

abbrev first_items : List Item
first_items = gap 16 ∷ free 2097200 ∷ gap 16 ∷ []

initialize-IsHeap_example :
    IsHeap started.memory 256 4096 first_items
    × (started.free_list ≡ 256)
    × (started.mem_start ≡ 4112)
    × (started.num_chunks ≡ 1)
initialize-IsHeap_example = initialize-IsHeap 256 4096 none blank (inl (omega arith)) (omega arith)

abbrev first_heap :
    IsHeap started.memory 256 4096 first_items
    × (started.free_list ≡ 256)
    × (started.mem_start ≡ 4112)
    × (started.num_chunks ≡ 1)
first_heap = initialize-IsHeap 256 4096 none blank (inl (omega arith)) (omega arith)

started-IsHeap : IsHeap started.memory 256 4096 first_items
started-IsHeap = first_heap.0

started-free_list : started.free_list ≡ 256
started-free_list = first_heap.1

rounded_size_wraps_example :
    (rounded_size 18446744073709551600 ≤ 48) × (rounded_size 18446744073709551600 < chunk_object)
rounded_size_wraps_example = rounded_size_wraps 18446744073709551600 (omega arith) (omega arith)

use_chunk_overrun_example :
    use_chunk started.memory 256 2101344 (rounded_size 2097140) (status_of (2101344 + 2097216))
    ≡ 256
use_chunk_overrun_example =
    use_chunk_overrun started.memory 256 2101344 2097140 (omega arith) (omega arith)
      (inl (omega arith))

find_fit-IsHeap_example :
    Finds 152 4096 first_items (find_fit 2 started.memory 256 152 (started.memory (next_of 256)))
find_fit-IsHeap_example =
    find_fit-IsHeap 2 started.memory 256 4096 152 first_items started-IsHeap (omega arith)

-- After a request of 100 bytes.
abbrev carved_memory : Memory
carved_memory = use_fit started.memory 4112 152

carved-IsHeap : IsHeap carved_memory 256 4096 (gap 16 ∷ used 152 ∷ free 2097048 ∷ gap 16 ∷ [])
carved-IsHeap =
    use_fit-IsHeap started.memory 256 4096 (gap 16 ∷ []) 2097200 (gap 16 ∷ []) started-IsHeap 152
      (omega arith) (omega arith) (omega arith)

free_object-merge_example :
    Frees 1 carved_memory 256 4096 4144 (gap 16 ∷ free 2097200 ∷ gap 16 ∷ [])
free_object-merge_example =
    free_object-merge 1 carved_memory 256 4096 [] 152 (omega arith) (gap 16) (free 2097048)
      (gap 16 ∷ []) carved-IsHeap (omega arith)

use_fit-free_object_example : Frees 1 (use_fit started.memory 4112 152) 256 4096 4144 first_items
use_fit-free_object_example =
    use_fit-free_object 1 started.memory 256 4096 [] (gap 16) (gap 16) 2097200 152 [] (omega arith)
      refl refl started-IsHeap (omega arith) (omega arith) (omega arith) (omega arith)

allocate_object-IsFirstFit_example :
    ((xs : List Item) × (n : ℕ) × (ys : List Item) × IsFirstFit
        (rounded_size 100)
        first_items
        xs
        n
        ys
      × Serves 256 4096
          (rounded_size 100)
          started
          xs
          n
          ys
          (allocate_object 2 256 2101344 100 started))
    ⊎ (All (TooSmall (rounded_size 100)) first_items
        × (allocate_object 2 256 2101344 100 started
            ≡ serve no_fit 2101344 (rounded_size 100) started))
unfolding rounded_size
allocate_object-IsFirstFit_example =
    allocate_object-IsFirstFit 2 256 2101344 4096 100 started first_items started-free_list
      started-IsHeap (omega arith) (omega arith) (omega arith)

-- The next chunk right behind the first one, for an object of 152 bytes.
serve-no_fit_example :
    (m : Memory) × (serve no_fit 2101344 152 started
      ≡ some (
        2101392,
        record started {
          memory = m;
          heap_size = (started.heap_size + 2097248) % 18446744073709551616;
          num_chunks = started.num_chunks + 1;
        },
      ))
    × IsHeap m 256 4096 (gap 16 ∷ free 2097200 ∷ gap 48 ∷ used 152 ∷ free 2097048 ∷ gap 16 ∷ [])
serve-no_fit_example =
    serve-no_fit 256 4096 2101344 16 48 152 started (gap 16 ∷ free 2097200 ∷ []) started-free_list
      started-IsHeap (omega arith) (omega arith) (omega arith) (inl (omega arith)) (omega arith)
      (omega arith) (inl (omega arith)) (omega arith)

-- Two requests, the first one freed: the free list has it in front of the rest of the arena.
abbrev two_requests : Option (List (ℕ × ℕ))
two_requests = elim (malloc 4 256 0 100 started) [
  | none ↦ none
  | some (p, s) ↦ elim (malloc 4 256 0 10 s) [
    | none ↦ none
    | some (q, s) ↦ elim (Interface.free 4 256 p s) [
      | none ↦ none
      | some s ↦ print_list 4 s.memory s.free_list s.mem_start (s.memory (next_of s.free_list))
    ]
  ]
]

two_requests_shown : two_requests ≡ some ((0, 152) ∷ (216, 2096984) ∷ [])
unfolding malloc allocate_object serve rounded_size find_fit use_fit initialize Interface.free
    Interface.release free_object print_list Interface.get_memory_from_os Interface.first_object
two_requests_shown = refl
