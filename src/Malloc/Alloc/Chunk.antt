-- ===== src/Malloc/Alloc/Chunk.antt =====
-- What a new chunk of allocate_object of lab2-src/MyMalloc.c leaves in memory, word by word.
use cs.Common.{ℕ, ◌+◌, ◌-◌, ◌%◌, ◌≤◌, ◌<◌, ◌≡◌, ◌≢◌, ◌⊎◌, arith}
use cs.Malloc.Memory.{Memory, size_of, status_of, next_of, prev_of}
use cs.Malloc.Objects.{write_fenceposts, split_chunk, whole_chunk}
use cs.Malloc.Layout.{used, free, IsTagged}

-- The fenceposts of a chunk at `block`.
module _ (m : Memory) (block : ℕ) where
  pub fence-same :
      (a : ℕ)
      → (a < block) ⊎ (block + 2097248 ≤ a) ⊎ ((block + 16 ≤ a) × (a < block + 2097216))
      → write_fenceposts m block a ≡ m a
  unfolding write_fenceposts
  fence-same a out = ground arith

  pub fence-words :
      (write_fenceposts m block (size_of block) ≡ 0)
      × (write_fenceposts m block (status_of block) ≡ 1)
      × (write_fenceposts m block (size_of (block + 2097216)) ≡ 0)
      × (write_fenceposts m block (status_of (block + 2097216)) ≡ 1)
  unfolding write_fenceposts
  fence-words = (ground arith, ground arith, ground arith, ground arith)

-- The object of a chunk at `o`, split at `r`, with the free list from `s` ending in `l`.
module _ (m : Memory) (s l o r : ℕ) (tail : m (prev_of s) ≡ l) (apart : next_of l ≢ prev_of s)
    (l_out : (l + 32 ≤ o) ⊎ (o + 2097200 ≤ l)) (s_out : (s + 32 ≤ o) ⊎ (o + 2097200 ≤ s))
    (room : 48 ≤ r) (rest : r + 48 ≤ 2097200) where
  pub split_chunk-same :
      (a : ℕ)
      → (a < o) ⊎ (o + 2097200 ≤ a)
      → a ≢ next_of l
      → a ≢ prev_of s
      → split_chunk m s o r a ≡ m a
  unfolding split_chunk
  split_chunk-same a out u v = ground arith

  pub split_chunk-links :
      (split_chunk m s o r (next_of l) ≡ o + r)
      × (split_chunk m s o r (prev_of s) ≡ o + r)
      × (split_chunk m s o r (prev_of (o + r)) ≡ l)
      × (split_chunk m s o r (next_of (o + r)) ≡ s)
  unfolding split_chunk
  split_chunk-links = (ground arith, ground arith, ground arith, ground arith)

  pub split_chunk-front : r % 8 ≡ 0 → IsTagged (split_chunk m s o r) o (used r)
  unfolding split_chunk
  split_chunk-front mul = record {
    room = (room, mul);
    size = ground arith;
    status = ground arith;
    footer_size = ground arith;
    footer_status = ground arith;
  }

  pub split_chunk-back : r % 8 ≡ 0 → IsTagged (split_chunk m s o r) (o + r) (free (2097200 - r))
  unfolding split_chunk
  split_chunk-back mul = record {
    room = (omega arith, omega arith);
    size = ground arith;
    status = ground arith;
    footer_size = ground arith;
    footer_status = ground arith;
  }

-- The whole object of a chunk at `o`.
module _ (m : Memory) (o : ℕ) where
  pub whole_chunk-same : (a : ℕ) → (a < o) ⊎ (o + 2097200 ≤ a) → whole_chunk m o 2097200 a ≡ m a
  unfolding whole_chunk
  whole_chunk-same a out = ground arith

  pub whole_chunk-tags : IsTagged (whole_chunk m o 2097200) o (used 2097200)
  unfolding whole_chunk
  whole_chunk-tags = record {
    room = (omega arith, omega arith);
    size = ground arith;
    status = ground arith;
    footer_size = ground arith;
    footer_status = ground arith;
  }
