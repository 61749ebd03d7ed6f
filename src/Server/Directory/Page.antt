-- ===== src/Server/Directory/Page.antt =====
-- The page that handle_directory of lab5-src/handle_dir.c makes.
use mathlib.Core.List.{append_assoc, append-nil}
use cs.Common.{
  after_some, ℕ, ◌+◌, ◌*◌, ◌<◌, ◌≡◌, sym, ap, ◌∙◌, List, [], ◌∷◌, ◌++◌, some, length, length-append,
  codes, arith,
}
use cs.Server.Buffer.{Buffer, duplicate, resize, append-some}
use cs.Server.Messages.Rendered.{Yields}
use cs.Server.Directory.{
  Info, append_parts, add_row, add_rows, title_text, heading_text, heading_end, table_text,
  rest_tags, page,
}

abbrev pub joined : List (List ℕ) → List ℕ
joined [] = []
joined (part ∷ parts) = part ++ joined parts

-- With room for all of them, the parts are appended.
append_parts-some :
    (parts : List (List ℕ)) (b : Buffer)
    → length b.text + length (joined parts) < b.capacity
    → append_parts b parts ≡ some (record b { text = b.text ++ joined parts })
unfolding append_parts
append_parts-some [] b h = ap (λ t. some (record b { text = t })) (sym (append-nil b.text))
append_parts-some (part ∷ parts) b h =
    let size = length-append part (joined parts) in
    let size' = length-append b.text part in
    after_some _ (append-some b part (omega (arith, size))) (
      append_parts-some parts (record b { text = b.text ++ part }) (omega (arith, size, size'))
      ∙ ap (λ t. some (record b { text = t })) (append_assoc b.text part (joined parts)))

-- The three cells of a row.
abbrev pub name_cell : List ℕ → List (List ℕ)
name_cell name =
    codes "<tr>"
    ∷ codes "<td>"
    ∷ codes "<A HREF=\""
    ∷ name
    ∷ codes "\">"
    ∷ name
    ∷ codes "</A>"
    ∷ codes "</td>"
    ∷ []

abbrev pub date_cell : List ℕ → List (List ℕ)
date_cell date = codes "<td>" ∷ date ∷ codes "</td>" ∷ []

abbrev pub size_cell : List ℕ → List (List ℕ)
size_cell size = codes "<td>" ∷ size ∷ codes "</td>" ∷ codes "</tr>" ∷ []

length-name_cell : (name : List ℕ) → length (joined (name_cell name)) ≡ 28 + 2 * length name
length-name_cell name =
    let behind = codes "\">" ++ (name ++ (codes "</A>" ++ (codes "</td>" ++ []))) in
    omega
      (arith, length-append name behind, length-append name (codes "</A>" ++ (codes "</td>" ++ [])))

length-date_cell : (date : List ℕ) → length (joined (date_cell date)) ≡ 9 + length date
length-date_cell date = omega (arith, length-append date (codes "</td>" ++ []))

length-size_cell : (size : List ℕ) → length (joined (size_cell size)) ≡ 14 + length size
length-size_cell size = omega (arith, length-append size (codes "</td>" ++ (codes "</tr>" ++ [])))

abbrev pub row_text : Info → List ℕ
row_text f = joined (name_cell f.name) ++ (joined (date_cell f.date) ++ joined (size_cell f.size))

add_row-Yields : (b : Buffer) (f : Info) → Yields (add_row b f) (b.text ++ row_text f)
unfolding add_row
add_row-Yields b f =
    let (t1, t2, t3) : List ℕ × List ℕ × List ℕ =
      (joined (name_cell f.name), joined (date_cell f.date), joined (size_cell f.size)) in
    let (l1, l2, l3) : (length (joined (name_cell f.name)) ≡ 28 + 2 * length f.name)
        × (length (joined (date_cell f.date)) ≡ 9 + length f.date)
        × (length (joined (size_cell f.size)) ≡ 14 + length f.size) =
      (length-name_cell f.name, length-date_cell f.date, length-size_cell f.size) in
    let room1 = length b.text + 4 + 4 + 9 + 2 * length f.name + 2 + 4 + 5 + 1 in
    let b1 : Buffer = record { text = b.text ++ t1; capacity = room1 } in
    let room2 = length b1.text + 4 + length f.date + 5 + 1 in
    let b2 : Buffer = record { text = b1.text ++ t2; capacity = room2 } in
    let room3 = length b2.text + 4 + length f.size + 5 + 5 + 1 in
    let flat : b2.text ++ t3 ≡ b.text ++ row_text f =
      append_assoc b1.text t2 t3 ∙ append_assoc b.text t1 (t2 ++ t3) in
    (
      room3,
      after_some _ (append_parts-some (name_cell f.name) (resize b room1) (omega (arith, l1))) (
          after_some _ (append_parts-some (date_cell f.date) (resize b1 room2) (omega (arith, l2)))
            (append_parts-some (size_cell f.size) (resize b2 room3) (omega (arith, l3))
              ∙ ap (λ t. some (record { text = t; capacity = room3 })) flat)),
      omega (arith, l3, length-append b2.text t3, ap length flat),
    )

abbrev pub rows_text : List Info → List ℕ
rows_text [] = []
rows_text (f ∷ files) = row_text f ++ rows_text files

add_rows-Yields :
    (files : List Info) (b : Buffer)
    → length b.text < b.capacity
    → Yields (add_rows b files) (b.text ++ rows_text files)
unfolding add_rows
add_rows-Yields [] b h = (
  b.capacity,
  ap (λ t. some (record b { text = t })) (sym (append-nil b.text)),
  omega (arith, h, ap length (append-nil b.text)),
)
add_rows-Yields (f ∷ files) b h =
    let (room1, e1, f1) = add_row-Yields b f in
    let b1 : Buffer = record { text = b.text ++ row_text f; capacity = room1 } in
    let (room2, e2, f2) = add_rows-Yields files b1 f1 in
    let flat = append_assoc b.text (row_text f) (rows_text files) in
    (
      room2,
      after_some _ e1 (e2 ∙ ap (λ t. some (record { text = t; capacity = room2 })) flat),
      omega (arith, f2, ap length flat),
    )

-- The page of a directory: its heading, and a table with a row for each file.
abbrev pub page_text : List ℕ → List Info → List ℕ
page_text dir_path files =
    title_text
    ++ (heading_text
        ++ (dir_path ++ (joined (heading_end ∷ table_text ∷ []) ++ (rows_text files ++ rest_tags))))

-- The page is written within its buffer, however many files there are.
pub page-Yields :
    (dir_path : List ℕ) (files : List Info)
    → Yields (page dir_path files) (page_text dir_path files)
unfolding page
page-Yields dir_path files =
    let heads = joined (heading_end ∷ table_text ∷ []) in
    let t1 = title_text ++ heading_text in
    let b0 = duplicate title_text in
    let room1 = length title_text + length heading_text + 1 in
    let b1 : Buffer = record { text = t1; capacity = room1 } in
    let room2 = length t1 + length dir_path + 1 in
    let b2 : Buffer = record { text = t1 ++ dir_path; capacity = room2 } in
    let room3 = length b2.text + 5 + length table_text + 1 in
    let b3 : Buffer = record { text = b2.text ++ heads; capacity = room3 } in
    let (room4, e4, f4) = add_rows-Yields files b3 (omega (arith, length-append b2.text heads)) in
    let b4 : Buffer = record { text = b3.text ++ rows_text files; capacity = room4 } in
    let room5 = length b4.text + length rest_tags + 1 in
    let flat : b4.text ++ rest_tags ≡ page_text dir_path files = simp append_assoc in
    (
      room5,
      after_some _ (append-some (resize b0 room1) heading_text (omega arith)) (
          after_some _ (append-some (resize b1 room2) dir_path (omega arith)) (
            after_some _
              (append_parts-some (heading_end ∷ table_text ∷ []) (resize b2 room3) (omega arith))
              (after_some _ e4 (
                append-some (resize b4 room5) rest_tags (omega arith)
                ∙ ap (λ t. some (record { text = t; capacity = room5 })) flat)))),
      omega (arith, length-append b4.text rest_tags, ap length flat),
    )
