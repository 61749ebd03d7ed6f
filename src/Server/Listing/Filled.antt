-- ===== src/Server/Listing/Filled.antt =====
-- When generate_dir_listing of lab5-src/misc.c stays in its buffer, and what it returns then.
use mathlib.Core.List.{append_assoc, append-nil}
use cs.Common.{
  take-all, length-take_of_le, after_some, after_none, ℕ, zero, suc, ◌+◌, ◌-◌, ◌*◌, ◌≤◌, ◌<◌, ◌≡◌,
  sym, ap, ◌∙◌, List, [], ◌∷◌, ◌++◌, none, some, length, length-append, take, codes, arith,
}
use cs.Server.Buffer.{Buffer, resize, append, append-some, append-none}
use cs.Server.Messages.Rendered.{Yields}
use cs.Server.Listing.{
  FileLink, newline, header_text, item_text, footer_text, item_format, double_until, snprintf,
  add_text, add_items, first_size, generate_dir_listing,
}

-- The doubling ends within its fuel.
double_until-enough :
    (fuel need size : ℕ) → 1 ≤ size → need ≤ fuel + size → need ≤ double_until fuel need size
unfolding double_until
double_until-enough zero need size one le = omega arith
double_until-enough (suc fuel) need size one le =
    ground (arith, double_until-enough fuel need (size * 2))

length-item_text :
    (f : FileLink) → length (item_text f) + 4 ≡ item_format + length f.display_name + length f.url
length-item_text f =
    let behind = codes "</a>" ++ (newline ++ (codes "</li>" ++ newline)) in
    omega (
      arith,
      length-append f.url (codes "\">" ++ (f.display_name ++ behind)),
      length-append f.display_name behind,
    )

length-header_text :
    (dir_name : List ℕ) → length (header_text dir_name) ≡ 48 + length dir_name + length dir_name
length-header_text dir_name =
    let behind = codes "</h1>" ++ (newline ++ (codes "<ul>" ++ newline)) in
    let title_end = codes "</title>" ++ (newline ++ (codes "<h1>" ++ (dir_name ++ behind))) in
    omega (arith, length-append dir_name title_end, length-append dir_name behind)

-- With at least one byte, there is room after the doubling.
add_text-Yields :
    (b : Buffer) (text : List ℕ)
    → length b.text < b.capacity
    → Yields (add_text b text) (b.text ++ text)
unfolding add_text
add_text-Yields b text h =
    let need = length b.text + length text + 1 in
    let size = double_until need need b.capacity in
    let enough = double_until-enough need need b.capacity (omega arith) (omega arith) in
    let all = take-all (size - length b.text - 1) text (omega (arith, enough)) in
    let grown = length-append b.text text in
    (
      size,
      ap (append (resize b size)) all ∙ append-some (resize b size) text (omega (arith, enough)),
      omega (arith, grown, enough),
    )

abbrev pub items_text : List FileLink → List ℕ
items_text [] = []
items_text (f ∷ files) = item_text f ++ items_text files

add_items-Yields :
    (files : List FileLink) (b : Buffer)
    → length b.text < b.capacity
    → Yields (add_items files b) (b.text ++ items_text files)
unfolding add_items
add_items-Yields [] b h = (
  b.capacity,
  ap (λ t. some (record b { text = t })) (sym (append-nil b.text)),
  omega (arith, h, ap length (append-nil b.text)),
)
add_items-Yields (f ∷ files) b h =
    let combined = item_format + length f.display_name + length f.url + 1 in
    let short = length-item_text f in
    let all = take-all (combined - 1) (item_text f) (omega (arith, short)) in
    let li : Buffer = record { text = item_text f; capacity = combined } in
    let empty : Buffer = record { text = []; capacity = combined } in
    let printed : snprintf combined combined (item_text f) ≡ some li =
      ap (append empty) all ∙ append-some empty (item_text f) (omega (arith, short)) in
    let (room1, e1, f1) = add_text-Yields b (item_text f) h in
    let b1 : Buffer = record { text = b.text ++ item_text f; capacity = room1 } in
    let (room2, e2, f2) = add_items-Yields files b1 f1 in
    let flat = append_assoc b.text (item_text f) (items_text files) in
    (
      room2,
      after_some _ printed
          (after_some _ e1 (e2 ∙ ap (λ t. some (record { text = t; capacity = room2 })) flat)),
      omega (arith, f2, ap length flat),
    )

-- The text of the whole listing.
abbrev pub listing_text : List ℕ → List FileLink → List ℕ
listing_text dir_name files = header_text dir_name ++ (items_text files ++ footer_text)

-- When the header fits in the first buffer, generate_dir_listing stays in its buffers, however many
-- files there are, and returns the header, an item for each file in their order, and the footer.
pub generate_dir_listing-Yields :
    (dir_name : List ℕ) (files : List FileLink)
    → length (header_text dir_name) < first_size dir_name
    → Yields (generate_dir_listing dir_name files) (listing_text dir_name files)
unfolding generate_dir_listing
generate_dir_listing-Yields dir_name files h =
    let header = header_text dir_name in
    let size = first_size dir_name in
    let empty : Buffer = record { text = []; capacity = size } in
    let b : Buffer = record { text = header; capacity = size } in
    let all = take-all (size + 1 - 1) header (omega arith) in
    let printed : snprintf size (size + 1) header ≡ some b =
      ap (append empty) all ∙ append-some empty header (omega arith) in
    let (room1, e1, f1) = add_items-Yields files b h in
    let b1 : Buffer = record { text = header ++ items_text files; capacity = room1 } in
    let (room2, e2, f2) = add_text-Yields b1 footer_text f1 in
    let flat = append_assoc header (items_text files) footer_text in
    (
      room2,
      after_some _ printed
          (after_some _ e1 (e2 ∙ ap (λ t. some (record { text = t; capacity = room2 })) flat)),
      omega (arith, f2, ap length flat),
    )

first_size_short : (dir_name : List ℕ) → length dir_name ≤ 971 → first_size dir_name ≡ 1024
unfolding first_size double_until
first_size_short dir_name h = ground arith

-- A name of 488 to 971 bytes overruns the first buffer: the name is counted once for its size and
-- stands twice in the header, and snprintf may write one byte more than the buffer has.
pub generate_dir_listing_overrun :
    (dir_name : List ℕ) (files : List FileLink)
    → 488 ≤ length dir_name
    → length dir_name ≤ 971
    → generate_dir_listing dir_name files ≡ none
unfolding generate_dir_listing
generate_dir_listing_overrun dir_name files lo hi =
    let first = first_size_short dir_name hi in
    let long = length-header_text dir_name in
    let cut = length-take_of_le 1024 (header_text dir_name) (omega (arith, long)) in
    rw first (
      after_none _ (
        append-none (record { text = []; capacity = 1024 }) (take 1024 (header_text dir_name))
          (omega (arith, cut))))
