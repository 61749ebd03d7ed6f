-- ===== src/Common/Arrays.antt =====
-- Arrays that grow when they are full: general_lines and header_array of lab5-src/server.c by one slot,
-- info_array of lab5-src/handle_dir.c and dir_array of lab3-src/shell.y to twice their slots.
use cs.Common.{
  ◌*◌, ◌>>=◌, after_some, ℕ, ◌+◌, ◌≤◌, ◌<◌, ◌≡◌, refl, Bool-cases, inl, inr, List, [], ◌∷◌, ◌++◌,
  Option, none, some, zero, suc, length, length-append, ◌==◌, if◌then◌else◌, arith,
}
use cs.Common.Slots.{
  item, Slots, fresh, resize, changed, assign, assign-some, Stored, Stored-changed, Stored-append,
}

pub record Array (A : Type 0) : Type 0 where
  pub items : Slots A
  pub max : ℕ
  pub num : ℕ

-- More slots than before.
abbrev pub Grows : (ℕ → ℕ) → Type 0
Grows more = (n : ℕ) → 1 ≤ n → n < more n

module _ {A : Type 0} where
  abbrev pub new_array : ℕ → Array A
  new_array max = record { items = fresh max; max = max; num = 0 }

  unfoldable pub grow : (more : ℕ → ℕ) → Array A → Array A
  grow more a =
      if a.num == a.max
      then record a { items = resize a.items (more a.max); max = more a.max }
      else a

  unfoldable pub push : (more : ℕ → ℕ) → Array A → A → Option (Array A)
  push more a x = do
    let a = grow more a
    items ← assign a.items a.num (item x)
    some (record a { items = items; num = a.num + 1 })

  -- The items in the slots from `i` on, `count` of them.
  unfoldable pub items_from : (count i : ℕ) → Array A → Option (List A)
  items_from zero i a = some []
  items_from (suc count) i a = elim (a.items.slot i) [
    | item x ↦ items_from count (i + 1) a >>= λ xs. some (x ∷ xs)
    | _ ↦ none
  ]

  pub items_from-Stored :
      (xs : List A) (i : ℕ) (a : Array A)
      → Stored a.items.slot i xs
      → items_from (length xs) i a ≡ some xs
  unfolding items_from
  items_from-Stored [] i a h = refl
  items_from-Stored (x ∷ xs) i a h = rw h.0 (after_some _ (items_from-Stored xs (i + 1) a h.1) refl)

  -- The array holds this list.
  pub record IsArray (a : Array A) (xs : List A) : Type 0 where
    pub count : a.num ≡ length xs
    pub room : a.items.room ≡ a.max
    pub spare : length xs ≤ a.max
    pub some_room : 1 ≤ a.max
    pub stored : Stored a.items.slot 0 xs

  pub new-IsArray : (max : ℕ) → 1 ≤ max → IsArray (new_array max) []
  new-IsArray max h = record {
    count = refl;
    room = refl;
    spare = omega arith;
    some_room = h;
    stored = tt;
  }

  grow-IsArray :
      (more : ℕ → ℕ) (a : Array A) (xs : List A)
      → Grows more
      → IsArray a xs
      → IsArray (grow more a) xs × (length xs < (grow more a).max)
  unfolding grow
  grow-IsArray more a xs g h = elim (Bool-cases (a.num == a.max)) [
    | inl e ↦
        let full : a.num ≡ a.max = ground arith in
        let larger = g a.max h.some_room in
        rw e (
          record {
            count = h.count;
            room = refl;
            spare = omega (arith, h.spare, larger);
            some_room = omega (arith, larger);
            stored = h.stored;
          },
          omega (arith, h.count, larger),
        )
    | inr e ↦ rw e (h, ground (arith, h.count, h.spare))
  ]

  -- A push stays within the array and adds the item at the end.
  pub push-IsArray :
      (more : ℕ → ℕ) (a : Array A) (xs : List A) (x : A)
      → Grows more
      → IsArray a xs
      → (a' : Array A) × (push more a x ≡ some a') × IsArray a' (xs ++ (x ∷ []))
  unfolding push
  push-IsArray more a xs x larger h =
      let g = grow more a in
      let (k, spare) = grow-IsArray more a xs larger h in
      let f = changed g.items.slot g.num (item x) in
      let done = assign-some g.items g.num (item x) (omega (arith, k.count, k.room, spare)) in
      let at_end : f (0 + length xs) ≡ item x = ground (arith, k.count) in
      let grown = length-append xs (x ∷ []) in
      (
        record g { items = record g.items { slot = f }; num = g.num + 1 },
        after_some _ done refl,
        record {
          count = omega (arith, k.count, grown);
          room = k.room;
          spare = omega (arith, grown, spare);
          some_room = k.some_room;
          stored =
              Stored-append f 0 xs x
                (Stored-changed g.items.slot 0 g.num (item x) xs (omega (arith, k.count)) k.stored)
                at_end;
        },
      )

abbrev pub one_more : ℕ → ℕ
one_more n = n + 1

abbrev pub doubled : ℕ → ℕ
doubled n = n * 2

pub one_more-Grows : (n : ℕ) → 1 ≤ n → n < one_more n
one_more-Grows n h = omega arith

pub doubled-Grows : (n : ℕ) → 1 ≤ n → n < doubled n
doubled-Grows n h = omega arith
