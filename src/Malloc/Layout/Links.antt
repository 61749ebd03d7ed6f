-- ===== src/Malloc/Layout/Links.antt =====
-- Layouts, and the memory that holds one. A gap stands for fenceposts: the end of one chunk, what
-- lies between, and the start of the next. It is tagged like an allocated object of size 0.
use cs.Common.{ℕ, ◌+◌, ◌-◌, ◌%◌, ◌≤◌, ◌<◌, ◌≡◌, refl, ◌⊎◌, List, [], ◌∷◌, ◌++◌, arith}
use cs.Malloc.Memory.{Memory, unallocated, allocated, size_of, status_of, next_of, prev_of}

pub data Item : Type 0 where
  used : ℕ → Item
  free : ℕ → Item
  gap : ℕ → Item

-- The bytes that an item takes, and what its tags say.
abbrev pub extent : Item → ℕ
extent (used n) = n
extent (free n) = n
extent (gap n) = n

abbrev pub tag_size : Item → ℕ
tag_size (used n) = n
tag_size (free n) = n
tag_size (gap n) = 0

abbrev pub tag_status : Item → ℕ
tag_status (used n) = allocated
tag_status (free n) = unallocated
tag_status (gap n) = allocated

-- An object has room for a header and a footer that do not overlap; sizes are multiples of 8.
abbrev pub HasRoom : Item → Type 0
HasRoom (used n) = (48 ≤ n) × (n % 8 ≡ 0)
HasRoom (free n) = (48 ≤ n) × (n % 8 ≡ 0)
HasRoom (gap n) = (16 ≤ n) × (n % 8 ≡ 0)

-- The header at `p` and the footer in the last 16 bytes agree.
pub record IsTagged (m : Memory) (p : ℕ) (it : Item) : Type 0 where
  pub room : HasRoom it
  pub size : m (size_of p) ≡ tag_size it
  pub status : m (status_of p) ≡ tag_status it
  pub footer_size : m (size_of (p + extent it - 16)) ≡ tag_size it
  pub footer_status : m (status_of (p + extent it - 16)) ≡ tag_status it

-- The first free object from `p` on, or `stop`.
abbrev pub first_free : ℕ → List Item → ℕ → ℕ
first_free p [] stop = stop
first_free p (used n ∷ its) stop = first_free (p + n) its stop
first_free p (free n ∷ its) stop = p
first_free p (gap n ∷ its) stop = first_free (p + n) its stop

-- The last free object, or `start`.
abbrev pub last_free : ℕ → ℕ → List Item → ℕ
last_free p start [] = start
last_free p start (used n ∷ its) = last_free (p + n) start its
last_free p start (free n ∷ its) = last_free (p + n) p its
last_free p start (gap n ∷ its) = last_free (p + n) start its

abbrev pub end_of : ℕ → List Item → ℕ
end_of p [] = p
end_of p (it ∷ its) = end_of (p + extent it) its

-- Memory holds the items from `p` on, with `prev` the free object before them and `stop` the one
-- behind them.
abbrev pub Holds : Memory → ℕ → ℕ → List Item → ℕ → Type 0
Holds m p prev [] stop = Unit
Holds m p prev (used n ∷ its) stop = IsTagged m p (used n) × Holds m (p + n) prev its stop
Holds m p prev (free n ∷ its) stop =
    IsTagged m p (free n)
    × (m (prev_of p) ≡ prev)
    × (m (next_of p) ≡ first_free (p + n) its stop)
    × Holds m (p + n) p its stop
Holds m p prev (gap n ∷ its) stop = IsTagged m p (gap n) × Holds m (p + n) prev its stop

-- The whole heap: the items from `base` on, the sentinel with the ends of the free list, and the
-- sentinel's words apart from the items. Addresses fit in a size_t.
pub record IsHeap (m : Memory) (sentinel base : ℕ) (its : List Item) : Type 0 where
  pub holds : Holds m base sentinel its sentinel
  pub head : m (next_of sentinel) ≡ first_free base its sentinel
  pub tail : m (prev_of sentinel) ≡ last_free base sentinel its
  pub apart : (sentinel + 32 ≤ base) ⊎ (end_of base its ≤ sentinel)
  pub fits : end_of base its < 18446744073709551616

pub end_of-append : (p : ℕ) (xs ys : List Item) → end_of p (xs ++ ys) ≡ end_of (end_of p xs) ys
end_of-append p [] ys = refl
end_of-append p (it ∷ xs) ys = end_of-append (p + extent it) xs ys

pub first_free-append :
    (p : ℕ) (xs ys : List Item) (stop : ℕ)
    → first_free p (xs ++ ys) stop ≡ first_free p xs (first_free (end_of p xs) ys stop)
first_free-append p [] ys stop = refl
first_free-append p (used n ∷ xs) ys stop = first_free-append (p + n) xs ys stop
first_free-append p (free n ∷ xs) ys stop = refl
first_free-append p (gap n ∷ xs) ys stop = first_free-append (p + n) xs ys stop

pub last_free-append :
    (p start : ℕ) (xs ys : List Item)
    → last_free p start (xs ++ ys) ≡ last_free (end_of p xs) (last_free p start xs) ys
last_free-append p start [] ys = refl
last_free-append p start (used n ∷ xs) ys = last_free-append (p + n) start xs ys
last_free-append p start (free n ∷ xs) ys = last_free-append (p + n) p xs ys
last_free-append p start (gap n ∷ xs) ys = last_free-append (p + n) start xs ys

pub le-end_of : (p : ℕ) (its : List Item) → p ≤ end_of p its
le-end_of p [] = omega arith
le-end_of p (it ∷ its) = omega (arith, le-end_of (p + extent it) its)

-- A row of items either has no free object, or its ends in the free list do not depend on what
-- stands before and behind it.
pub record HasNone (p : ℕ) (its : List Item) : Type 0 where
  pub first : (stop : ℕ) → first_free p its stop ≡ stop
  pub last : (start : ℕ) → last_free p start its ≡ start

pub record HasSome (p : ℕ) (its : List Item) : Type 0 where
  pub first : (stop stop' : ℕ) → first_free p its stop ≡ first_free p its stop'
  pub last : (start start' : ℕ) → last_free p start its ≡ last_free p start' its
  pub first_ge : p ≤ first_free p its 0
  pub first_le : first_free p its 0 + 48 ≤ end_of p its
  pub last_ge : p ≤ last_free p 0 its
  pub last_le : last_free p 0 its + 48 ≤ end_of p its
