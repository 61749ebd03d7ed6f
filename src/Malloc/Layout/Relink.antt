-- ===== src/Malloc/Layout/Relink.antt =====
-- What a change of memory leaves of the rows on both sides of it when it sets their outermost links.
use cs.Common.{ℕ, ◌+◌, ◌-◌, ◌≤◌, ◌<◌, ◌≡◌, sym, ap, ◌∙◌, ◌≢◌, ◌⊎◌, inl, inr, List, [], ◌∷◌, arith}
use cs.Malloc.Memory.{Memory, next_of}
use cs.Malloc.Layout.Links.{
  Item, used, free, gap, IsTagged, first_free, last_free, end_of, Holds, HasNone, HasSome,
  le-end_of,
}
use cs.Malloc.Layout.Frame.{ends, IsTagged-frame, IsTagged-same, Holds-frame}

-- A word outside the range from `p` to `e`.
abbrev pub IsOutside : ℕ → ℕ → ℕ → Type 0
IsOutside w p e = (w < p) ⊎ (e ≤ w)

-- The link words that a change sets lie past the words of the items in front of them.
last_past :
    (p q prev : ℕ) (its : List Item)
    → HasNone q its ⊎ HasSome q its
    → IsOutside (prev + 16) p (end_of q its)
    → p ≤ q
    → (a : ℕ) → p ≤ a
    → a < q
    → a ≢ last_free q prev its + 16
last_past p q prev its (inl e) out le a u v = omega (arith, e.last prev, le-end_of q its)
last_past p q prev its (inr e) out le a u v = omega (arith, e.last prev 0, e.last_ge)

first_past :
    (p q stop : ℕ) (its : List Item)
    → HasNone q its ⊎ HasSome q its
    → IsOutside (stop + 24) p (end_of q its)
    → p ≤ q
    → (a : ℕ) → p ≤ a
    → a < q
    → a ≢ first_free q its stop + 24
first_past p q stop its (inl e) out le a u v = omega (arith, e.first stop, le-end_of q its)
first_past p q stop its (inr e) out le a u v = omega (arith, e.first stop 0, e.first_ge)

-- The `next` word of a free object at `p` once the link behind the row is set.
next_relinked :
    (m m' : Memory) (p n : ℕ) (its : List Item) (stop stop' : ℕ)
    → HasNone (p + n) its ⊎ HasSome (p + n) its
    → 48 ≤ n
    → m (next_of p) ≡ first_free (p + n) its stop
    → (p + 16 ≢ last_free (p + n) p its + 16 → m' (p + 16) ≡ m (p + 16))
    → m' (last_free (p + n) p its + 16) ≡ stop'
    → m' (next_of p) ≡ first_free (p + n) its stop'
next_relinked m m' p n its stop stop' (inl e) room h same set =
    ap (λ q. m' (q + 16)) (sym (e.last p)) ∙ set ∙ sym (e.first stop')
next_relinked m m' p n its stop stop' (inr e) room h same set =
    same (omega (arith, e.last p 0, e.last_ge)) ∙ h ∙ e.first stop stop'

-- The words of a free object but its `next`.
tags_relinked :
    (m m' : Memory) (p n w : ℕ)
    → IsTagged m p (free n)
    → (w ≡ p + 16) ⊎ (w ≡ p + 24) ⊎ (p + n ≤ w)
    → ((a : ℕ) → p ≤ a → a < p + n → a ≢ w → m' a ≡ m a)
    → IsTagged m' p (free n)
tags_relinked m m' p n w t far same =
    let room : 48 ≤ n = t.room.0 in
    IsTagged-frame t (same p (omega arith) (omega arith) (omega arith))
      (same (p + 8) (omega arith) (omega arith) (omega arith))
      (same (p + n - 16) (omega arith) (omega arith) (omega arith))
      (same (p + n - 16 + 8) (omega arith) (omega arith) (omega arith))

last_far :
    (p n : ℕ) (its : List Item)
    → HasNone (p + n) its ⊎ HasSome (p + n) its
    → (last_free (p + n) p its ≡ p) ⊎ (p + n ≤ last_free (p + n) p its)
last_far p n its (inl e) = omega (arith, e.last p)
last_far p n its (inr e) = omega (arith, e.last p 0, e.last_ge)

-- The row in front of a change: the change sets the `next` of its last free object, or of what
-- stands before the row.
pub Holds-relink_next :
    (m m' : Memory) (p prev : ℕ) (its : List Item) (stop stop' : ℕ)
    → Holds m p prev its stop
    → IsOutside (prev + 16) p (end_of p its)
    → ((a : ℕ) → p ≤ a → a < end_of p its → a ≢ last_free p prev its + 16 → m' a ≡ m a)
    → m' (last_free p prev its + 16) ≡ stop'
    → Holds m' p prev its stop'
Holds-relink_next m m' p prev [] stop stop' h out same set = tt
Holds-relink_next m m' p prev (used n ∷ its) stop stop' h out same set =
    let past = le-end_of (p + n) its in
    let far = last_past p (p + n) prev its (ends m (p + n) prev its stop h.1) out (omega arith) in
    (
      IsTagged-same m m' p (used n) h.0 (λ a u v. same a u (omega (arith, past)) (far a u v)),
      Holds-relink_next m m' (p + n) prev its stop stop' h.1 (omega arith)
          (λ a u v. same a (omega arith) v) set,
    )
Holds-relink_next m m' p prev (gap n ∷ its) stop stop' h out same set =
    let past = le-end_of (p + n) its in
    let far = last_past p (p + n) prev its (ends m (p + n) prev its stop h.1) out (omega arith) in
    (
      IsTagged-same m m' p (gap n) h.0 (λ a u v. same a u (omega (arith, past)) (far a u v)),
      Holds-relink_next m m' (p + n) prev its stop stop' h.1 (omega arith)
          (λ a u v. same a (omega arith) v) set,
    )
Holds-relink_next m m' p prev (free n ∷ its) stop stop' h out same set =
    let past = le-end_of (p + n) its in
    let room : 48 ≤ n = h.0.room.0 in
    let split = ends m (p + n) p its stop h.3 in
    let far = last_far p n its split in
    (
      tags_relinked m m' p n (last_free (p + n) p its + 16) h.0 (omega (arith, far))
          (λ a u v. same a u (omega (arith, past))),
      same (p + 24) (omega arith) (omega (arith, past)) (omega (arith, far)) ∙ h.1,
      next_relinked m m' p n its stop stop' split room h.2
          (same (p + 16) (omega arith) (omega (arith, past))) set,
      Holds-relink_next m m' (p + n) p its stop stop' h.3 (omega arith)
          (λ a u v. same a (omega arith) v) set,
    )

-- The row behind a change: the change sets the `prev` of its first free object, or of what stands
-- behind the row.
pub Holds-relink_prev :
    (m m' : Memory) (p prev prev' : ℕ) (its : List Item) (stop : ℕ)
    → Holds m p prev its stop
    → IsOutside (stop + 24) p (end_of p its)
    → ((a : ℕ) → p ≤ a → a < end_of p its → a ≢ first_free p its stop + 24 → m' a ≡ m a)
    → m' (first_free p its stop + 24) ≡ prev'
    → Holds m' p prev' its stop
Holds-relink_prev m m' p prev prev' [] stop h out same set = tt
Holds-relink_prev m m' p prev prev' (used n ∷ its) stop h out same set =
    let past = le-end_of (p + n) its in
    let far = first_past p (p + n) stop its (ends m (p + n) prev its stop h.1) out (omega arith) in
    (
      IsTagged-same m m' p (used n) h.0 (λ a u v. same a u (omega (arith, past)) (far a u v)),
      Holds-relink_prev m m' (p + n) prev prev' its stop h.1 (omega arith)
          (λ a u v. same a (omega arith) v) set,
    )
Holds-relink_prev m m' p prev prev' (gap n ∷ its) stop h out same set =
    let past = le-end_of (p + n) its in
    let far = first_past p (p + n) stop its (ends m (p + n) prev its stop h.1) out (omega arith) in
    (
      IsTagged-same m m' p (gap n) h.0 (λ a u v. same a u (omega (arith, past)) (far a u v)),
      Holds-relink_prev m m' (p + n) prev prev' its stop h.1 (omega arith)
          (λ a u v. same a (omega arith) v) set,
    )
Holds-relink_prev m m' p prev prev' (free n ∷ its) stop h out same set =
    let past = le-end_of (p + n) its in
    let room : 48 ≤ n = h.0.room.0 in
    (
      tags_relinked m m' p n (p + 24) h.0 (omega arith) (λ a u v. same a u (omega (arith, past))),
      set,
      same (p + 16) (omega arith) (omega (arith, past)) (omega arith) ∙ h.2,
      Holds-frame m m' (p + n) p its stop h.3 (λ a u v. same a (omega arith) v (omega arith)),
    )
