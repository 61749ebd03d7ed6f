-- ===== src/Malloc/Alloc/Writes.antt =====
-- What take_whole and split of lab2-src/MyMalloc.c leave in memory, word by word.
use cs.Common.{ℕ, ◌+◌, ◌-◌, ◌%◌, ◌≤◌, ◌<◌, ◌≡◌, ◌≢◌, ◌⊎◌, arith}
use cs.Malloc.Memory.{Memory, next_of, prev_of}
use cs.Malloc.Objects.{take_whole, split}
use cs.Malloc.Layout.{used, free, IsTagged}

-- A free object of `n` bytes at `c`, between `l` and `q` in the free list.
pub record IsFree (m : Memory) (c n l q : ℕ) : Type 0 where
  pub tags : IsTagged m c (free n)
  pub prev : m (prev_of c) ≡ l
  pub next : m (next_of c) ≡ q
  pub before_out : (l + 32 ≤ c) ⊎ (c + n ≤ l)
  pub behind_out : (q + 32 ≤ c) ⊎ (c + n ≤ q)
  pub apart : next_of l ≢ prev_of q

module _ (m : Memory) (c n l q r : ℕ) (f : IsFree m c n l q) (room : 48 ≤ r)
    (rest : r + 56 ≤ n) where
  pub split-same :
      (a : ℕ) → (a < c) ⊎ (c + n ≤ a) → a ≢ next_of l → a ≢ prev_of q → split m c r a ≡ m a
  unfolding split
  split-same a out u v = ground arith

  -- The list's neighbours point at the new object, and it at them.
  pub split-links :
      (split m c r (next_of l) ≡ c + r)
      × (split m c r (prev_of q) ≡ c + r)
      × (split m c r (prev_of (c + r)) ≡ l)
      × (split m c r (next_of (c + r)) ≡ q)
  unfolding split
  split-links = (ground arith, ground arith, ground arith, ground arith)

  pub split-front : r % 8 ≡ 0 → IsTagged (split m c r) c (used r)
  unfolding split
  split-front mul = record {
    room = (room, mul);
    size = ground arith;
    status = ground arith;
    footer_size = ground arith;
    footer_status = ground arith;
  }

  pub split-back : r % 8 ≡ 0 → IsTagged (split m c r) (c + r) (free (n - r))
  unfolding split
  split-back mul = record {
    room = (omega arith, omega (arith, f.tags.room.1));
    size = ground arith;
    status = ground arith;
    footer_size = ground arith;
    footer_status = ground arith;
  }

module _ (m : Memory) (c n l q : ℕ) (f : IsFree m c n l q) where
  pub take_whole-same :
      (a : ℕ) → (a < c) ⊎ (c + n ≤ a) → a ≢ next_of l → a ≢ prev_of q → take_whole m c a ≡ m a
  unfolding take_whole
  take_whole-same a out u v = ground arith

  pub take_whole-links : (take_whole m c (next_of l) ≡ q) × (take_whole m c (prev_of q) ≡ l)
  unfolding take_whole
  take_whole-links = (ground arith, ground arith)

  pub take_whole-tags : IsTagged (take_whole m c) c (used n)
  unfolding take_whole
  take_whole-tags = record {
    room = f.tags.room;
    size = ground arith;
    status = ground arith;
    footer_size = ground arith;
    footer_status = ground arith;
  }
