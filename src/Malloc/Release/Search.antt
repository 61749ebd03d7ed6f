-- ===== src/Malloc/Release/Search.antt =====
-- The loop of free_object that finds the place of an object in the free list.
use cs.Common.{ℕ, zero, suc, ◌+◌, ◌≤◌, ◌<◌, ◌≡◌, ◌≢◌, ◌∙◌, ◌⊎◌, List, [], ◌∷◌, some, arith}
use cs.Malloc.Memory.{Memory, next_of}
use cs.Malloc.Objects.{find_place}
use cs.Malloc.Layout.{Item, used, free, gap, first_free, last_free, end_of, Holds, le-end_of}
use cs.Malloc.Alloc.{count_free}

find_place-stop :
    (fuel : ℕ) (m : Memory) (s c t stop : ℕ)
    → m (next_of t) ≡ stop
    → t < c
    → (stop ≡ s) ⊎ (c < stop)
    → find_place (suc fuel) m s c t ≡ some t
unfolding find_place
find_place-stop fuel m s c t stop e lt out = rw e (ground arith)

find_place-step :
    (fuel : ℕ) (m : Memory) (s c t next : ℕ)
    → m (next_of t) ≡ next
    → next ≢ s
    → next < c
    → find_place (suc fuel) m s c t ≡ find_place fuel m s c next
unfolding find_place
find_place-step fuel m s c t next e ne lt = rw e (ground arith)

-- With the sentinel below the heap, the walk passes every free object in front of `c` and stops at
-- the last one.
pub find_place-last :
    (fuel : ℕ) (m : Memory) (s c p t : ℕ) (its : List Item) (stop : ℕ)
    → Holds m p t its stop
    → m (next_of t) ≡ first_free p its stop
    → s < p
    → t < c
    → end_of p its ≤ c
    → (stop ≡ s) ⊎ (c < stop)
    → count_free its < fuel
    → find_place fuel m s c t ≡ some (last_free p t its)
find_place-last zero m s c p t its stop h e low lt le out enough = absurd (omega arith)
find_place-last (suc fuel) m s c p t [] stop h e low lt le out enough =
    find_place-stop fuel m s c t stop e lt out
find_place-last (suc fuel) m s c p t (used n ∷ its) stop h e low lt le out enough =
    find_place-last (suc fuel) m s c (p + n) t its stop h.1 e (omega arith) lt le out enough
find_place-last (suc fuel) m s c p t (gap n ∷ its) stop h e low lt le out enough =
    find_place-last (suc fuel) m s c (p + n) t its stop h.1 e (omega arith) lt le out enough
find_place-last (suc fuel) m s c p t (free n ∷ its) stop h e low lt le out enough =
    let room : 48 ≤ n = h.0.room.0 in
    let past = le-end_of (p + n) its in
    find_place-step fuel m s c t p e (omega arith) (omega (arith, past))
    ∙ find_place-last fuel m s c (p + n) p its stop h.3 h.2 (omega arith) (omega (arith, past)) le
        out (omega arith)
