-- ===== src/Server/Directory/Entries.antt =====
-- The response of handle_directory in lab5-src/handle_dir.c: which entries it can show, and what it
-- sends.
use mathlib.Core.List.{append_assoc, append-nil}
use cs.Common.{
  after_some, after_none, ℕ, ◌+◌, ◌≤◌, ◌<◌, ◌≡◌, refl, sym, ap, subst, ◌∙◌, ◌⊎◌, inl, inr,
  Bool-cases, false, true, List, [], ◌∷◌, ◌++◌, All, Option, none, some, length, length-append,
  get_elem?, codes, decimal, same_text, length-decimal_lt, ltb, if◌then◌else◌, arith,
}
use cs.Server.Buffer.{Buffer, duplicate, resize, append-some, append-none}
use cs.Common.Arrays.{
  items_from, items_from-Stored, Array, new_array, doubled, IsArray, new-IsArray, push-IsArray,
  doubled-Grows,
}
use cs.Server.Messages.{Response}
use cs.Server.Messages.Rendered.{response_text, told_length, response_string_lem}
use cs.Server.Request.{split_words}
use cs.Server.Directory.{
  Info, Stat, link_root, join_path, size_text, date_text, entry_info, read_entries,
  directory_response, reply_to, respond_entries, sent, fault, sent_of, handle_directory,
}
use cs.Server.Directory.Page.{page_text, page-Yields}

join_path-some :
    (path d_name : List ℕ) → join_path path d_name ≡ some ((path ++ codes "/") ++ d_name)
unfolding join_path
join_path-some path d_name =
    let b : Buffer = record { text = path ++ codes "/"; capacity = length path + 2 } in
    after_some _ (append-some (resize (duplicate path) (length path + 2)) (codes "/") (omega arith))
      (after_some _
        (append-some (resize b (length b.text + length d_name + 1)) d_name (omega arith)) refl)

-- The name of an entry in the page: the fourth part of the path, and its own.
abbrev pub link_name : List ℕ → List ℕ → List ℕ
link_name root d_name = (root ++ codes "/") ++ d_name

-- The size as shown; no more than four digits fit.
abbrev pub shown_size : Stat → List ℕ
shown_size st = if st.is_dir then codes "-" else decimal st.size

size_text-some : (st : Stat) → length (decimal st.size) ≤ 4 → size_text st ≡ some (shown_size st)
unfolding size_text
size_text-some st h = elim (Bool-cases st.is_dir) [
  | inl e ↦ rw e refl
  | inr e ↦ rw e (
      after_some _
        (append-some (record { text = []; capacity = 5 }) (decimal st.size) (omega arith)) refl)
]

-- A file of five digits or more overruns the buffer for its size.
size_text-none :
    (st : Stat) → st.is_dir ≡ false → 5 ≤ length (decimal st.size) → size_text st ≡ none
unfolding size_text
size_text-none st e h = rw e (
    after_none _ (append-none (record { text = []; capacity = 5 }) (decimal st.size) (omega arith)))

-- What stat and gmtime tell can be shown: at most four digits of size for a file, and a date that
-- fits in its buffer.
abbrev pub IsShown : Stat → Type 0
IsShown st = ((st.is_dir ≡ true) ⊎ (length (decimal st.size) ≤ 4)) × (length (date_text st) < 26)

-- The path fits in the buffer for it, and has a fourth part.
abbrev pub HasRoot : List ℕ → List ℕ → Type 0
HasRoot dir_path root =
    (length dir_path < 256) × (get_elem? (split_words 47 [] dir_path) 3 ≡ some root)

link_root-some : (dir_path root : List ℕ) → HasRoot dir_path root → link_root dir_path ≡ some root
unfolding link_root
link_root-some dir_path root h =
    after_some _ (append-some (record { text = []; capacity = 256 }) dir_path (omega (arith, h.0)))
      h.1

size_text-IsShown : (st : Stat) → IsShown st → size_text st ≡ some (shown_size st)
unfolding size_text
size_text-IsShown st h = elim h.0 [ inl e ↦ rw e refl | inr short ↦ size_text-some st short ]

-- The info of an entry.
abbrev pub info_of : (root : List ℕ) → Stat → (d_name : List ℕ) → Info
info_of root st d_name = record {
  name = link_name root d_name;
  date = date_text st;
  size = shown_size st;
  is_dir = st.is_dir;
}

-- The reply to a directory, as a response.
abbrev pub directory_reply : (version dir_path : List ℕ) → List Info → Response
directory_reply version dir_path files = record {
  http_version = version;
  status_code = 200;
  headers =
      record { key = some (codes "Content-Type"); value = some (codes "text/html") }
      ∷ record { key = some (codes "Connection"); value = some (codes "close") }
      ∷ record {
        key = some (codes "Content-Length");
        value = some (decimal (length (page_text dir_path files)));
      }
      ∷ [];
  message_body = page_text dir_path files ++ (0 ∷ []);
}

module _ (stat : List ℕ → Stat) (readdir : List ℕ → Option (List (List ℕ)))
    (qsort : List Info → List Info) (atoi : List ℕ → ℕ) where
  -- The path of an entry, that stat is asked about.
  abbrev pub stat_of : (dir_path d_name : List ℕ) → Stat
  stat_of dir_path d_name = stat (link_name dir_path d_name)

  entry_info-some :
      (dir_path root d_name : List ℕ)
      → HasRoot dir_path root
      → IsShown (stat_of dir_path d_name)
      → entry_info stat readdir qsort atoi dir_path d_name
        ≡ some (info_of root (stat_of dir_path d_name) d_name)
  unfolding entry_info
  entry_info-some dir_path root d_name h shown =
      let st = stat_of dir_path d_name in
      after_some _ (link_root-some dir_path root h) (
        after_some _ (join_path-some dir_path d_name) (
          after_some _ (join_path-some root d_name) (
            after_some _ (size_text-IsShown st shown) (
              after_some _
                (append-some (record { text = []; capacity = 26 }) (date_text st)
                  (omega (arith, shown.1)))
                refl))))

  -- The infos of all entries, in the order of readdir.
  abbrev pub infos_of : (dir_path root : List ℕ) → List (List ℕ) → List Info
  infos_of dir_path root [] = []
  infos_of dir_path root (d_name ∷ names) =
      info_of root (stat_of dir_path d_name) d_name ∷ infos_of dir_path root names

  read_entries-IsArray :
      (dir_path root : List ℕ) (names : List (List ℕ)) (a : Array Info) (xs : List Info)
      → HasRoot dir_path root
      → All (λ d_name. IsShown (stat_of dir_path d_name)) names
      → IsArray a xs
      → (a' : Array Info) × (read_entries stat readdir qsort atoi dir_path names a ≡ some a')
        × IsArray a' (xs ++ infos_of dir_path root names)
  unfolding read_entries
  read_entries-IsArray dir_path root [] a xs h shown k =
      (a, refl, subst (IsArray a) (sym (append-nil xs)) k)
  read_entries-IsArray dir_path root (d_name ∷ names) a xs h shown k =
      let info = info_of root (stat_of dir_path d_name) d_name in
      let (a1, e1, k1) = push-IsArray doubled a xs info doubled-Grows k in
      let (a2, e2, k2) =
        read_entries-IsArray dir_path root names a1 (xs ++ (info ∷ [])) h shown.1 k1 in
      (
        a2,
        after_some _ (entry_info-some dir_path root d_name h shown.0) (after_some _ e1 e2),
        subst (IsArray a2) (append_assoc xs (info ∷ []) (infos_of dir_path root names)) k2,
      )

  told_directory :
      (version dir_path : List ℕ) (files : List Info)
      → told_length atoi (directory_reply version dir_path files).headers 0
        ≡ atoi (decimal (length (page_text dir_path files)))
  unfolding same_text
  told_directory version dir_path files = refl

  directory_response-some :
      ((n : ℕ) → atoi (decimal n) ≡ n)
      → (version dir_path : List ℕ) (files : List Info)
      → directory_response stat readdir qsort atoi version dir_path files
        ≡ some (response_text atoi (directory_reply version dir_path files))
  unfolding directory_response
  directory_response-some reads version dir_path files =
      let body = page_text dir_path files in
      let (room, e, fits) = page-Yields dir_path files in
      let n = length body in
      let some_text : 2 ≤ n = omega arith in
      let told = told_directory version dir_path files ∙ reads n in
      let (room', e', _) =
        response_string_lem atoi (directory_reply version dir_path files) (omega arith)
          (omega (arith, told, length-append body (0 ∷ [])))
          (λ zero_told. absurd (omega (arith, told, zero_told, some_text))) in
      after_some _ e (
        after_some _
          (append-some (record { text = []; capacity = n }) (decimal n)
            (omega (arith, length-decimal_lt n some_text)))
          (after_some _ e' refl))

  -- The files in the order of qsort, which is called for two of them or more.
  abbrev pub sorted : List Info → List Info
  sorted files = if ltb 1 (length files) then qsort files else files

  -- A directory whose entries can all be shown is answered with the page of them all, in the order
  -- of qsort, under headers that tell its length: the response of status 200, written within its
  -- buffers. The path has a fourth part and fewer than 256 bytes, and atoi reads what sprintf writes.
  pub handle_directory-sent :
      ((n : ℕ) → atoi (decimal n) ≡ n)
      → (version dir_path root : List ℕ) (names : List (List ℕ)) → readdir dir_path ≡ some names
      → HasRoot dir_path root
      → All (λ d_name. IsShown (stat_of dir_path d_name)) names
      → handle_directory stat readdir qsort atoi version dir_path
        ≡ sent (
            response_text atoi
              (directory_reply version dir_path (sorted (infos_of dir_path root names))))
  unfolding handle_directory respond_entries
  handle_directory-sent reads version dir_path root names opened h shown =
      let (a, e, k) =
        read_entries-IsArray dir_path root names (new_array 20) [] h shown
          (new-IsArray 20 (omega arith)) in
      let files = infos_of dir_path root names in
      let all : items_from a.num 0 a ≡ some files =
        ap (λ n. items_from n 0 a) k.count ∙ items_from-Stored files 0 a k.stored in
      ap (λ found. reply_to stat readdir qsort atoi found version dir_path) opened
      ∙ ap sent_of (
          after_some _ e (
            after_some _ all (
              ap
                (λ n.
                  directory_response stat readdir qsort atoi version dir_path
                    (if ltb 1 n then qsort files else files))
                k.count
              ∙ directory_response-some reads version dir_path (sorted files))))

  -- A directory with at least one entry cannot be answered if the path has no fourth part between its
  -- slashes, as that of the document root has not: strdup is called with a null pointer.
  pub handle_directory-fault :
      (version dir_path d_name : List ℕ) (names : List (List ℕ))
      → readdir dir_path ≡ some (d_name ∷ names)
      → length dir_path < 256
      → get_elem? (split_words 47 [] dir_path) 3 ≡ none
      → handle_directory stat readdir qsort atoi version dir_path ≡ fault
  unfolding handle_directory respond_entries read_entries entry_info link_root
  handle_directory-fault version dir_path d_name names opened h parts =
      ap (λ found. reply_to stat readdir qsort atoi found version dir_path) opened
      ∙ ap sent_of (
          after_none _ (
            after_none _ (
              after_none _ (
                after_some _
                  (append-some (record { text = []; capacity = 256 }) dir_path (omega (arith, h)))
                  parts))))
