-- ===== src/Server/Listing.antt =====
-- generate_dir_listing of lab5-src/misc.c. Its variable buffer_size is always the capacity of the
-- buffer. The ints that hold lengths are numbers without a bound: texts are taken to be far shorter
-- than 2^31 bytes.
pub mod Filled
use cs.Common.{
  ◌>>=◌, ℕ, zero, suc, ◌+◌, ◌-◌, ◌*◌, List, [], ◌∷◌, ◌++◌, Option, some, length, take, codes, ltb,
  if◌then◌else◌,
}
use cs.Server.Buffer.{Buffer, resize, append}

-- file_link of misc.h
pub record FileLink : Type 0 where
  pub display_name : List ℕ
  pub url : List ℕ

-- DIR_LIST_INITIAL_BUF_SIZE
abbrev pub initial_size : ℕ
initial_size = 1024

abbrev pub newline : List ℕ
newline = 10 ∷ []

-- HEADER_FORMAT, LIST_ITEM_FORMAT and FOOTER_FORMAT with their %s filled in, and the lengths of the
-- formats themselves.
abbrev pub header_text : List ℕ → List ℕ
header_text dir_name =
    codes "<!doctype html>"
    ++ (newline
        ++ (newline
            ++ (codes "<title>"
                ++ (dir_name
                    ++ (codes "</title>"
                        ++ (newline
                            ++ (codes "<h1>"
                                ++ (dir_name
                                    ++ (codes "</h1>"
                                        ++ (newline ++ (codes "<ul>" ++ newline)))))))))))

abbrev pub item_text : FileLink → List ℕ
item_text f =
    codes "<li>"
    ++ (newline
        ++ (codes "<a href=\""
            ++ (f.url
                ++ (codes "\">"
                    ++ (f.display_name
                        ++ (codes "</a>" ++ (newline ++ (codes "</li>" ++ newline))))))))

abbrev pub footer_text : List ℕ
footer_text = codes "</ul>" ++ newline

abbrev pub header_format : ℕ
header_format = length (header_text (codes "%s"))

abbrev pub item_format : ℕ
item_format = length (item_text (record { display_name = codes "%s"; url = codes "%s" }))

-- The loop that doubles a size until it is at least `need`.
unfoldable pub double_until : (fuel need size : ℕ) → ℕ
double_until zero need size = size
double_until (suc fuel) need size =
    let rest = double_until fuel need (size * 2) in if ltb size need then rest else size

-- snprintf into an empty buffer, of at most `n` bytes with the null.
abbrev pub snprintf : (capacity n : ℕ) → List ℕ → Option Buffer
snprintf capacity n text = append (record { text = []; capacity = capacity }) (take (n - 1) text)

-- The loop that makes room for a text, and strncat.
unfoldable pub add_text : Buffer → List ℕ → Option Buffer
unfolding double_until
add_text b text =
    let need = length b.text + length text + 1 in
    let size = double_until need need b.capacity in
    append (resize b size) (take (size - length b.text - 1) text)

unfoldable pub add_items : List FileLink → Buffer → Option Buffer
add_items [] b = some b
add_items (f ∷ files) b = do
  let combined_length = item_format + length f.display_name + length f.url + 1
  li ← snprintf combined_length combined_length (item_text f)
  b ← add_text b li.text
  add_items files b

unfoldable pub first_size : List ℕ → ℕ
first_size dir_name =
    let need = header_format + length dir_name + 1 in double_until need need initial_size

unfoldable pub generate_dir_listing : List ℕ → List FileLink → Option Buffer
generate_dir_listing dir_name files = do
  let buffer_size = first_size dir_name
  b ← snprintf buffer_size (buffer_size + 1) (header_text dir_name)
  b ← add_items files b
  add_text b footer_text
