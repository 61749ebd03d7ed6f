-- ===== src/Server/ContentType/Copied.antt =====
-- What get_content_type of lab5-src/misc.c returns.
use mathlib.Core.List.{append_assoc, append-nil}
use cs.Common.{
  after_some, ℕ, ◌+◌, ◌≤◌, ◌<◌, ◌≡◌, refl, sym, ap, subst, ◌∙◌, true, Bool-cases, inl, inr, not,
  List, [], ◌∷◌, ◌++◌, All, some, length, length-append, if◌then◌else◌, arith,
}
use cs.Common.Slots.{
  Slot, item, Slots, fresh, changed, assign-some, changed-same, resize, Stored, Stored-changed,
  Stored-append,
}
use cs.Server.ContentType.{
  init_buf_size, Printed, put_bytes, read_output, is_space_byte, copy_bytes, content_type, type_of,
  with_output, get_content_type,
}

-- What is printed, and that without its spaces.
abbrev pub all_bytes : List (List ℕ) → List ℕ
all_bytes [] = []
all_bytes (p ∷ pieces) = p ++ all_bytes pieces

abbrev pub without_spaces : List ℕ → List ℕ
without_spaces [] = []
without_spaces (c ∷ cs) =
    let rest = without_spaces cs in if not (is_space_byte c) then c ∷ rest else rest

-- read delivers at least a byte and at most as many as it was asked for.
abbrev pub IsPiece : List ℕ → Type 0
IsPiece p = (1 ≤ length p) × (length p ≤ init_buf_size)

-- A byte behind those that are there.
Stored-put :
    (f : ℕ → Slot ℕ) (done : List ℕ) (c : ℕ)
    → Stored f 0 done
    → Stored (changed f (length done) (item c)) 0 (done ++ (c ∷ []))
Stored-put f done c h =
    let n = length done in
    let g = changed f n (item c) in
    Stored-append g 0 done c (Stored-changed f 0 n (item c) done (omega arith) h)
      (ap g (omega arith) ∙ changed-same f n (item c))

put_bytes-Stored :
    (cs done : List ℕ) (a : Slots ℕ)
    → Stored a.slot 0 done
    → length done + length cs ≤ a.room
    → (a' : Slots ℕ) × (put_bytes cs (length done) a ≡ some a')
      × Stored a'.slot 0 (done ++ cs)
      × (a'.room ≡ a.room)
unfolding put_bytes
put_bytes-Stored [] done a h le = (a, refl, subst (Stored a.slot 0) (sym (append-nil done)) h, refl)
put_bytes-Stored (c ∷ cs) done a h le =
    let n = length done in
    let a1 : Slots ℕ = record a { slot = changed a.slot n (item c) } in
    let grown = length-append done (c ∷ []) in
    let stored = Stored-put a.slot done c h in
    let (a', e, h', room) =
      put_bytes-Stored cs (done ++ (c ∷ [])) a1 stored (omega (arith, grown)) in
    (
      a',
      after_some _ (assign-some a n (item c) (omega arith))
          (ap (λ i. put_bytes cs i a1) (omega (arith, grown)) ∙ e),
      subst (Stored a'.slot 0) (append_assoc done (c ∷ []) cs) h',
      room,
    )

read_output-Stored :
    (pieces : List (List ℕ)) (done : List ℕ) (o : Printed)
    → All IsPiece pieces
    → Stored o.buf.slot 0 done
    → o.buf_end ≡ length done
    → o.buf.room ≡ length done + init_buf_size
    → (o' : Printed) × (read_output pieces o ≡ some o')
      × Stored o'.buf.slot 0 (done ++ all_bytes pieces)
      × (o'.buf_end ≡ length (done ++ all_bytes pieces))
unfolding read_output
read_output-Stored [] done o h stored end room = (
  o,
  refl,
  subst (Stored o.buf.slot 0) (sym (append-nil done)) stored,
  end ∙ ap length (sym (append-nil done)),
)
read_output-Stored ([] ∷ pieces) done o h stored end room =
    let low : ⊥ = omega (arith, h.0) in elim low [ ]
read_output-Stored ((c ∷ cs) ∷ pieces) done o h stored end room =
    let p = c ∷ cs in
    let (a, e, stored1, room1) = put_bytes-Stored p done o.buf stored (omega (arith, room, h.0)) in
    let grown = length-append done p in
    let o1 : Printed = record {
      buf = resize a (a.room + length p);
      buf_end = o.buf_end + length p;
    } in
    let (o', e', stored', end') =
      read_output-Stored pieces (done ++ p) o1 h.1 stored1 (omega (arith, grown, end))
        (omega (arith, grown, room1, room)) in
    let same = append_assoc done p (all_bytes pieces) in
    (
      o',
      after_some _ (ap (λ i. put_bytes p i o.buf) end ∙ e) e',
      subst (Stored o'.buf.slot 0) same stored',
      end' ∙ ap length same,
    )

-- The null behind a text.
abbrev pub IsText : Slots ℕ → List ℕ → Type 0
IsText a text = Stored a.slot 0 text × (a.slot (length text) ≡ item 0)

copy_bytes-IsText :
    (cs : List ℕ) (i : ℕ) (buf response : Slots ℕ) (done : List ℕ)
    → Stored buf.slot i cs
    → Stored response.slot 0 done
    → length done + length cs < response.room
    → (response' : Slots ℕ) × (copy_bytes (length cs) i buf response (length done) ≡ some response')
      × IsText response' (done ++ without_spaces cs)
unfolding copy_bytes
copy_bytes-IsText [] i buf response done from stored room =
    let n = length done in
    (
      record response { slot = changed response.slot n (item 0) },
      assign-some response n (item 0) (omega arith),
      subst (IsText (record response { slot = changed response.slot n (item 0) }))
          (sym (append-nil done))
          (
            Stored-changed response.slot 0 n (item 0) done (omega arith) stored,
            changed-same response.slot n (item 0),
          ),
    )
copy_bytes-IsText (c ∷ cs) i buf response done from stored room =
    elim (Bool-cases (not (is_space_byte c))) [
      | inl e ↦
          let n = length done in
          let r1 : Slots ℕ = record response { slot = changed response.slot n (item c) } in
          let grown = length-append done (c ∷ []) in
          let (r, f, h) =
            copy_bytes-IsText cs (i + 1) buf r1 (done ++ (c ∷ [])) from.1
              (Stored-put response.slot done c stored) (omega (arith, grown)) in
          let copied : copy_bytes (length cs) (i + 1) buf r1 (n + 1) ≡ some r =
            ap (λ k. copy_bytes (length cs) (i + 1) buf r1 k) (omega (arith, grown)) ∙ f in
          rw from.0 (
            rw e (
              r,
              after_some _ (assign-some response n (item c) (omega arith)) copied,
              subst (IsText r) (append_assoc done (c ∷ []) (without_spaces cs)) h,
            ))
      | inr e ↦
          rw from.0
            (rw e (copy_bytes-IsText cs (i + 1) buf response done from.1 stored (omega arith)))
    ]

-- What the program prints is returned without its spaces, with a null behind it and within the
-- arrays, if the program succeeds and read delivers pieces of up to the bytes asked for.
pub get_content_type-IsText :
    (pieces : List (List ℕ))
    → All IsPiece pieces
    → (response : Slots ℕ) × (get_content_type true pieces (some true) ≡ content_type response)
      × IsText response (without_spaces (all_bytes pieces))
unfolding get_content_type
get_content_type-IsText pieces h =
    let begun : Printed = record { buf = fresh init_buf_size; buf_end = 0 } in
    let (o, e, stored, end) = read_output-Stored pieces [] begun h tt refl (omega arith) in
    let cs = all_bytes pieces in
    let (r, f, text) =
      copy_bytes-IsText cs 0 o.buf (fresh (o.buf_end + 1)) [] stored tt (omega (arith, end)) in
    (
      r,
      ap (λ m. with_output m (some true)) e
          ∙ ap (λ n. type_of (copy_bytes n 0 o.buf (fresh (o.buf_end + 1)) 0)) end
          ∙ ap type_of f,
      text,
    )
