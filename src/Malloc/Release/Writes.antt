-- ===== src/Malloc/Release/Writes.antt =====
-- What the four cases of free_object of lab2-src/MyMalloc.c leave in memory, word by word.
use cs.Common.{ℕ, ◌+◌, ◌-◌, ◌≤◌, ◌<◌, ◌≡◌, ◌≢◌, ◌⊎◌, arith}
use cs.Malloc.Memory.{Memory, next_of, prev_of}
use cs.Malloc.Objects.{mark_free, link_behind, free_left, free_right, free_both}
use cs.Malloc.Layout.{used, free, IsTagged}

-- Case 1: the object at `c` is put between `l` and `q`.
module _ (m : Memory) (c n l q : ℕ) (t : IsTagged m c (used n)) (next : m (next_of l) ≡ q)
    (before_out : (l + 32 ≤ c) ⊎ (c + n ≤ l)) (behind_out : (q + 32 ≤ c) ⊎ (c + n ≤ q))
    (apart : next_of l ≢ prev_of q) where
  abbrev pub linked : Memory
  linked = link_behind (mark_free m c (c + n - 16)) c l

  pub linked-same : (a : ℕ) → (a < c) ⊎ (c + n ≤ a) → a ≢ next_of l → a ≢ prev_of q → linked a ≡ m a
  unfolding mark_free link_behind
  linked-same a out u v = ground (arith, t.room.0)

  pub linked-links :
      (linked (next_of l) ≡ c)
      × (linked (prev_of q) ≡ c)
      × (linked (prev_of c) ≡ l)
      × (linked (next_of c) ≡ q)
  unfolding mark_free link_behind
  linked-links = (
    ground (arith, t.room.0),
    ground (arith, t.room.0),
    ground (arith, t.room.0),
    ground (arith, t.room.0),
  )

  pub linked-tags : IsTagged linked c (free n)
  unfolding mark_free link_behind
  linked-tags = record {
    room = t.room;
    size = ground (arith, t.room.0);
    status = ground (arith, t.room.0);
    footer_size = ground (arith, t.room.0);
    footer_status = ground (arith, t.room.0);
  }

-- Case 2: a free object of `k` bytes, linked between `l` and `q`, stands on the left.
module _ (m : Memory) (c k n l q : ℕ) (tl : IsTagged m c (free k)) (t : IsTagged m (c + k) (used n))
    (prev : m (prev_of c) ≡ l) (next : m (next_of c) ≡ q) (low : 16 ≤ c)
    (fits : k + n < 18446744073709551616) where
  abbrev pub left_merged : Memory
  left_merged = free_left m (c + k) (c + k + n - 16) (c + k - 16)

  pub left_merged-same : (a : ℕ) → (a < c) ⊎ (c + k + n ≤ a) → left_merged a ≡ m a
  unfolding free_left
  left_merged-same a out = ground (arith, t.room.0, tl.room.0)

  pub left_merged-links : (left_merged (prev_of c) ≡ l) × (left_merged (next_of c) ≡ q)
  unfolding free_left
  left_merged-links = (ground (arith, t.room.0, tl.room.0), ground (arith, t.room.0, tl.room.0))

  pub left_merged-tags : IsTagged left_merged c (free (k + n))
  unfolding free_left
  left_merged-tags = record {
    room = (omega (arith, tl.room.0), omega (arith, tl.room.1, t.room.1));
    size = ground (arith, t.room.0, tl.room.0);
    status = ground (arith, t.room.0, tl.room.0);
    footer_size = ground (arith, t.room.0, tl.room.0);
    footer_status = ground (arith, t.room.0, tl.room.0);
  }

-- Case 3: a free object of `k` bytes, linked between `l` and `q`, stands on the right.
module _ (m : Memory) (c n k l q : ℕ) (t : IsTagged m c (used n)) (tr : IsTagged m (c + n) (free k))
    (prev : m (prev_of (c + n)) ≡ l) (next : m (next_of (c + n)) ≡ q)
    (before_out : (l + 32 ≤ c) ⊎ (c + n + k ≤ l)) (behind_out : (q + 32 ≤ c) ⊎ (c + n + k ≤ q))
    (apart : next_of l ≢ prev_of q) (fits : n + k < 18446744073709551616) where
  abbrev pub right_merged : Memory
  right_merged = free_right m c (c + n - 16) (c + n)

  pub right_merged-same :
      (a : ℕ) → (a < c) ⊎ (c + n + k ≤ a) → a ≢ next_of l → a ≢ prev_of q → right_merged a ≡ m a
  unfolding free_right
  right_merged-same a out u v = ground (arith, t.room.0, tr.room.0)

  pub right_merged-links :
      (right_merged (next_of l) ≡ c)
      × (right_merged (prev_of q) ≡ c)
      × (right_merged (prev_of c) ≡ l)
      × (right_merged (next_of c) ≡ q)
  unfolding free_right
  right_merged-links = (
    ground (arith, t.room.0, tr.room.0) steps 10000000,
    ground (arith, t.room.0, tr.room.0) steps 10000000,
    ground (arith, t.room.0, tr.room.0) steps 10000000,
    ground (arith, t.room.0, tr.room.0) steps 10000000,
  )

  pub right_merged-tags : IsTagged right_merged c (free (n + k))
  unfolding free_right
  right_merged-tags = record {
    room = (omega (arith, t.room.0), omega (arith, tr.room.1, t.room.1));
    size = ground (arith, t.room.0, tr.room.0);
    status = ground (arith, t.room.0, tr.room.0);
    footer_size = ground (arith, t.room.0, tr.room.0);
    footer_status = ground (arith, t.room.0, tr.room.0);
  }

-- Case 4: free objects of `j` and `k` bytes stand on both sides.
module _ (m : Memory) (c j n k l q : ℕ) (tl : IsTagged m c (free j))
    (t : IsTagged m (c + j) (used n)) (tr : IsTagged m (c + j + n) (free k))
    (prev : m (prev_of c) ≡ l) (next : m (next_of (c + j + n)) ≡ q)
    (behind_out : (q + 32 ≤ c) ⊎ (c + j + n + k ≤ q)) (low : 16 ≤ c)
    (fits : j + n + k < 18446744073709551616) where
  abbrev pub both_merged : Memory
  both_merged = free_both m (c + j) (c + j - 16) (c + j + n)

  pub both_merged-same :
      (a : ℕ) → (a < c) ⊎ (c + j + n + k ≤ a) → a ≢ prev_of q → both_merged a ≡ m a
  unfolding free_both
  both_merged-same a out v = ground (arith, t.room.0, tl.room.0, tr.room.0)

  pub both_merged-links :
      (both_merged (prev_of q) ≡ c) × (both_merged (prev_of c) ≡ l) × (both_merged (next_of c) ≡ q)
  unfolding free_both
  both_merged-links = (
    ground (arith, t.room.0, tl.room.0, tr.room.0),
    ground (arith, t.room.0, tl.room.0, tr.room.0),
    ground (arith, t.room.0, tl.room.0, tr.room.0),
  )

  pub both_merged-tags : IsTagged both_merged c (free (j + n + k))
  unfolding free_both
  both_merged-tags = record {
    room = (omega (arith, t.room.0), omega (arith, tl.room.1, tr.room.1, t.room.1));
    size = ground (arith, t.room.0, tl.room.0, tr.room.0);
    status = ground (arith, t.room.0, tl.room.0, tr.room.0);
    footer_size = ground (arith, t.room.0, tl.room.0, tr.room.0);
    footer_status = ground (arith, t.room.0, tl.room.0, tr.room.0);
  }
