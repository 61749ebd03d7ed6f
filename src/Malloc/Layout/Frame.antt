-- ===== src/Malloc/Layout/Frame.antt =====
-- What a change of memory leaves of a row of items: rows away from the change, and the rows on both
-- sides of it, whose outermost links it sets.
use cs.Common.{
  ℕ, ◌+◌, ◌-◌, ◌≤◌, ◌<◌, ◌≡◌, refl, sym, ◌∙◌, ◌⊎◌, inl, inr, List, [], ◌∷◌, ◌++◌, arith,
}
use cs.Malloc.Memory.{Memory, size_of, status_of}
use cs.Malloc.Layout.Links.{
  Item, used, free, gap, extent, HasRoom, IsTagged, first_free, last_free, end_of, Holds, HasNone,
  HasSome, le-end_of, first_free-append,
}

-- A row that memory holds has no free object, or one well inside.
ends_free :
    (p n : ℕ) (its : List Item)
    → 48 ≤ n
    → HasNone (p + n) its ⊎ HasSome (p + n) its
    → HasSome p (free n ∷ its)
ends_free p n its room (inl e) = record {
  first = λ stop stop'. refl;
  last = λ start start'. refl;
  first_ge = omega arith;
  first_le = omega (arith, le-end_of (p + n) its);
  last_ge = omega (arith, e.last p);
  last_le = omega (arith, e.last p, le-end_of (p + n) its);
}
ends_free p n its room (inr e) = record {
  first = λ stop stop'. refl;
  last = λ start start'. refl;
  first_ge = omega arith;
  first_le = omega (arith, le-end_of (p + n) its);
  last_ge = omega (arith, e.last p 0, e.last_ge);
  last_le = omega (arith, e.last p 0, e.last_le);
}

ends_skip :
    (p n : ℕ) (its : List Item)
    → HasSome (p + n) its
    → (p ≤ first_free (p + n) its 0) × (p ≤ last_free (p + n) 0 its)
ends_skip p n its e = (omega (arith, e.first_ge), omega (arith, e.last_ge))

pub ends :
    (m : Memory) (p prev : ℕ) (its : List Item) (stop : ℕ)
    → Holds m p prev its stop
    → HasNone p its ⊎ HasSome p its
ends m p prev [] stop h = inl (record { first = λ stop. refl; last = λ start. refl })
ends m p prev (used n ∷ its) stop h = elim (ends m (p + n) prev its stop h.1) [
  | inl e ↦ inl (record { first = e.first; last = e.last })
  | inr e ↦ inr (record {
    first = e.first;
    last = e.last;
    first_ge = (ends_skip p n its e).0;
    first_le = e.first_le;
    last_ge = (ends_skip p n its e).1;
    last_le = e.last_le;
  })
]
ends m p prev (gap n ∷ its) stop h = elim (ends m (p + n) prev its stop h.1) [
  | inl e ↦ inl (record { first = e.first; last = e.last })
  | inr e ↦ inr (record {
    first = e.first;
    last = e.last;
    first_ge = (ends_skip p n its e).0;
    first_le = e.first_le;
    last_ge = (ends_skip p n its e).1;
    last_le = e.last_le;
  })
]
ends m p prev (free n ∷ its) stop h =
    inr (ends_free p n its h.0.room.0 (ends m (p + n) p its stop h.3))

pub Holds-append :
    (m : Memory) (p prev : ℕ) (xs ys : List Item) (stop : ℕ)
    → Holds m p prev (xs ++ ys) stop
    → Holds m p prev xs (first_free (end_of p xs) ys stop)
      × Holds m (end_of p xs) (last_free p prev xs) ys stop
Holds-append m p prev [] ys stop h = (tt, h)
Holds-append m p prev (used n ∷ xs) ys stop h =
    let rest = Holds-append m (p + n) prev xs ys stop h.1 in ((h.0, rest.0), rest.1)
Holds-append m p prev (gap n ∷ xs) ys stop h =
    let rest = Holds-append m (p + n) prev xs ys stop h.1 in ((h.0, rest.0), rest.1)
Holds-append m p prev (free n ∷ xs) ys stop h =
    let rest = Holds-append m (p + n) p xs ys stop h.3 in
    ((h.0, h.1, h.2 ∙ first_free-append (p + n) xs ys stop, rest.0), rest.1)

pub append-Holds :
    (m : Memory) (p prev : ℕ) (xs ys : List Item) (stop : ℕ)
    → Holds m p prev xs (first_free (end_of p xs) ys stop)
    → Holds m (end_of p xs) (last_free p prev xs) ys stop
    → Holds m p prev (xs ++ ys) stop
append-Holds m p prev [] ys stop h k = k
append-Holds m p prev (used n ∷ xs) ys stop h k =
    (h.0, append-Holds m (p + n) prev xs ys stop h.1 k)
append-Holds m p prev (gap n ∷ xs) ys stop h k = (h.0, append-Holds m (p + n) prev xs ys stop h.1 k)
append-Holds m p prev (free n ∷ xs) ys stop h k = (
  h.0,
  h.1,
  h.2 ∙ sym (first_free-append (p + n) xs ys stop),
  append-Holds m (p + n) p xs ys stop h.3 k,
)

-- The tags of an item depend on four words.
pub IsTagged-frame :
    {m m' : Memory} {p : ℕ} {it : Item}
    → IsTagged m p it
    → m' (size_of p) ≡ m (size_of p)
    → m' (status_of p) ≡ m (status_of p)
    → m' (size_of (p + extent it - 16)) ≡ m (size_of (p + extent it - 16))
    → m' (status_of (p + extent it - 16)) ≡ m (status_of (p + extent it - 16))
    → IsTagged m' p it
IsTagged-frame t a b c d = record {
  room = t.room;
  size = a ∙ t.size;
  status = b ∙ t.status;
  footer_size = c ∙ t.footer_size;
  footer_status = d ∙ t.footer_status;
}

pub HasRoom-ge : (it : Item) → HasRoom it → 16 ≤ extent it
HasRoom-ge (used n) h = omega arith
HasRoom-ge (free n) h = omega arith
HasRoom-ge (gap n) h = omega arith

pub IsTagged-same :
    (m m' : Memory) (p : ℕ) (it : Item)
    → IsTagged m p it
    → ((a : ℕ) → p ≤ a → a < p + extent it → m' a ≡ m a)
    → IsTagged m' p it
IsTagged-same m m' p it t same =
    let room = HasRoom-ge it t.room in
    IsTagged-frame t (same p (omega arith) (omega arith)) (same (p + 8) (omega arith) (omega arith))
      (same (p + extent it - 16) (omega arith) (omega arith))
      (same (p + extent it - 16 + 8) (omega arith) (omega arith))

-- A row survives a change that spares all its words.
pub Holds-frame :
    (m m' : Memory) (p prev : ℕ) (its : List Item) (stop : ℕ)
    → Holds m p prev its stop
    → ((a : ℕ) → p ≤ a → a < end_of p its → m' a ≡ m a)
    → Holds m' p prev its stop
Holds-frame m m' p prev [] stop h same = tt
Holds-frame m m' p prev (used n ∷ its) stop h same = (
  IsTagged-same m m' p (used n) h.0 (λ a u v. same a u (omega (arith, le-end_of (p + n) its))),
  Holds-frame m m' (p + n) prev its stop h.1 (λ a u v. same a (omega arith) v),
)
Holds-frame m m' p prev (gap n ∷ its) stop h same = (
  IsTagged-same m m' p (gap n) h.0 (λ a u v. same a u (omega (arith, le-end_of (p + n) its))),
  Holds-frame m m' (p + n) prev its stop h.1 (λ a u v. same a (omega arith) v),
)
Holds-frame m m' p prev (free n ∷ its) stop h same =
    let room : 48 ≤ n = h.0.room.0 in
    let past = le-end_of (p + n) its in
    (
      IsTagged-same m m' p (free n) h.0 (λ a u v. same a u (omega (arith, past))),
      same (p + 24) (omega arith) (omega (arith, past)) ∙ h.1,
      same (p + 16) (omega arith) (omega (arith, past)) ∙ h.2,
      Holds-frame m m' (p + n) p its stop h.3 (λ a u v. same a (omega arith) v),
    )
