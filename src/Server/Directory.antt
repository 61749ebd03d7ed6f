-- ===== src/Server/Directory.antt =====
-- handle_directory of lab5-src/handle_dir.c. What readdir, stat with gmtime, and qsort of the C
-- library give are parameters, and sizes and dates are not negative; `none` is a fault.
-- Names are C strings without a null, so that socket_write_string sends all of a response.
pub mod Page
pub mod Entries
use cs.Common.{
  ◌>>=◌, ℕ, zero, suc, ◌+◌, ◌*◌, Bool, List, [], ◌∷◌, ◌++◌, Option, none, some, length, get_elem?,
  codes, decimal, ltb, if◌then◌else◌, take,
}
use cs.Common.Slots.{Slot, item}
use cs.Server.Buffer.{Buffer, duplicate, resize, append}
use cs.Common.Arrays.{Array, new_array, push, items_from, doubled}
use cs.Server.Messages.{Header, Response, response_string}
use cs.Server.Request.{split_words}

-- struct info
pub record Info : Type 0 where
  pub name : List ℕ
  pub date : List ℕ
  pub size : List ℕ
  pub is_dir : Bool

-- What stat and gmtime tell of a file.
pub record Stat : Type 0 where
  pub is_dir : Bool
  pub size : ℕ
  pub tm_year : ℕ
  pub tm_mon : ℕ
  pub tm_mday : ℕ
  pub tm_hour : ℕ
  pub tm_min : ℕ

-- The fourth part of the path, between its slashes, by way of a copy in `char tmp[256]`.
unfoldable pub link_root : List ℕ → Option (List ℕ)
link_root dir_path = do
  tmp ← append (record { text = []; capacity = 256 }) dir_path
  get_elem? (split_words 47 [] tmp.text) 3

-- A string, a slash and an entry's name: two reallocs and two strcats.
unfoldable pub join_path : List ℕ → List ℕ → Option (List ℕ)
join_path path d_name = do
  b ← append (resize (duplicate path) (length path + 2)) (codes "/")
  b ← append (resize b (length b.text + length d_name + 1)) d_name
  some b.text

-- The size as it is shown: a dash, or the number in a buffer of sizeof(int) + 1 bytes.
unfoldable pub size_text : Stat → Option (List ℕ)
size_text st =
    let shown : Option (List ℕ) =
      append (record { text = []; capacity = 5 }) (decimal st.size) >>= λ b. some b.text in
    if st.is_dir then some (codes "-") else shown

abbrev pub date_text : Stat → List ℕ
date_text st =
    decimal (st.tm_mon + 1)
    ++ (codes "-"
        ++ (decimal st.tm_mday
            ++ (codes "-"
                ++ (decimal (st.tm_year + 1900)
                    ++ (codes ", " ++ (decimal st.tm_hour ++ (codes ":" ++ decimal st.tm_min)))))))

-- strcat of one text after the other.
unfoldable pub append_parts : Buffer → List (List ℕ) → Option Buffer
append_parts b [] = some b
append_parts b (part ∷ parts) = append b part >>= λ b. append_parts b parts

-- The row of a file: its name, its date and its size.
unfoldable pub add_row : Buffer → Info → Option Buffer
add_row b f = do
  b ← append_parts (resize b (length b.text + 4 + 4 + 9 + 2 * length f.name + 2 + 4 + 5 + 1)) (
      codes "<tr>"
      ∷ codes "<td>"
      ∷ codes "<A HREF=\""
      ∷ f.name
      ∷ codes "\">"
      ∷ f.name
      ∷ codes "</A>"
      ∷ codes "</td>"
      ∷ [])
  b ←
      append_parts (resize b (length b.text + 4 + length f.date + 5 + 1))
        (codes "<td>" ∷ f.date ∷ codes "</td>" ∷ [])
  append_parts (resize b (length b.text + 4 + length f.size + 5 + 5 + 1))
      (codes "<td>" ∷ f.size ∷ codes "</td>" ∷ codes "</tr>" ∷ [])

unfoldable pub add_rows : Buffer → List Info → Option Buffer
add_rows b [] = some b
add_rows b (f ∷ files) = add_row b f >>= λ b. add_rows b files

abbrev pub title_text : List ℕ
title_text = codes "<html><head><title>"

abbrev pub heading_text : List ℕ
heading_text = codes "Index of Directory</title></head><body><h1>Index of"

abbrev pub heading_end : List ℕ
heading_end = codes "</h1>"

abbrev pub table_text : List ℕ
table_text = codes "<table><th>Name</th><th>Date</th><th>Size</th>"

abbrev pub rest_tags : List ℕ
rest_tags = codes "</table></body></html>"

-- The page, in message_body.
unfoldable pub page : List ℕ → List Info → Option Buffer
page dir_path files = do
  let b = duplicate title_text
  b ← append (resize b (length b.text + length heading_text + 1)) heading_text
  b ← append (resize b (length b.text + length dir_path + 1)) dir_path
  b ←
      append_parts (resize b (length b.text + 5 + length table_text + 1))
        (heading_end ∷ table_text ∷ [])
  b ← add_rows b files
  append (resize b (length b.text + length rest_tags + 1)) rest_tags

-- handle_directory ends the process when the directory cannot be opened.
pub data Sent : Type 0 where
  sent : List ℕ → Sent
  exits : Sent
  fault : Sent

abbrev pub sent_of : Option (List ℕ) → Sent
sent_of none = fault
sent_of (some bytes) = sent bytes

module _ (stat : List ℕ → Stat) (readdir : List ℕ → Option (List (List ℕ)))
    (qsort : List Info → List Info) (atoi : List ℕ → ℕ) where
  -- One round of the loop over the directory, up to the array.
  unfoldable pub entry_info : (dir_path d_name : List ℕ) → Option Info
  entry_info dir_path d_name = do
    name ← link_root dir_path
    file_path ← join_path dir_path d_name
    name ← join_path name d_name
    let st = stat file_path
    size ← size_text st
    date ← append (record { text = []; capacity = 26 }) (date_text st)
    some (record { name = name; date = date.text; size = size; is_dir = st.is_dir })

  unfoldable pub read_entries : List ℕ → List (List ℕ) → Array Info → Option (Array Info)
  read_entries dir_path [] infos = some infos
  read_entries dir_path (d_name ∷ names) infos = do
    file_info ← entry_info dir_path d_name
    infos ← push doubled infos file_info
    read_entries dir_path names infos

  -- The response to a directory: the page with its three headers.
  unfoldable pub directory_response : (version dir_path : List ℕ) → List Info → Option (List ℕ)
  directory_response version dir_path files = do
    body ← page dir_path files
    let str_len = length body.text
    message_length ← append (record { text = []; capacity = str_len }) (decimal str_len)
    to_string ← response_string atoi (record {
      http_version = version;
      status_code = 200;
      headers =
          record { key = some (codes "Content-Type"); value = some (codes "text/html") }
          ∷ record { key = some (codes "Connection"); value = some (codes "close") }
          ∷ record { key = some (codes "Content-Length"); value = some message_length.text }
          ∷ [];
      message_body = body.text ++ (0 ∷ []);
    })
    some to_string.text

  unfoldable pub respond_entries : (version dir_path : List ℕ) → List (List ℕ) → Option (List ℕ)
  respond_entries version dir_path names = do
    infos ← read_entries dir_path names (new_array 20)
    files ← items_from infos.num 0 infos
    directory_response version dir_path (if ltb 1 infos.num then qsort files else files)

  abbrev pub reply_to : Option (List (List ℕ)) → (version dir_path : List ℕ) → Sent
  reply_to none version dir_path = exits
  reply_to (some names) version dir_path = sent_of (respond_entries version dir_path names)

  unfoldable pub handle_directory : (version dir_path : List ℕ) → Sent
  unfolding respond_entries
  handle_directory version dir_path = reply_to (readdir dir_path) version dir_path
