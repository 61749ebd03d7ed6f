-- ===== src/Shell/Expand.antt =====
-- What lab3-src/shell.y makes of an argument: wildcards, a tilde and references to the environment are
-- expanded. regcomp and regexec, opendir and readdir, qsort, getpwnam, getenv and getpid are parameters.
-- `none` is a fault: a write outside of what was allocated, the use of bytes never set or of a null
-- pointer. Bytes behind a string that strncpy cuts off are never set.
pub mod Inserted
pub mod Faults
pub mod Ends
use cs.Common.{
  ◌>>=◌, c_string, ℕ, zero, suc, ◌+◌, ◌*◌, ◌-◌, Bool, true, false, not, ◌&&◌, ◌||◌, List, [], ◌∷◌,
  ◌++◌, Option, none, some, length, drop, take, get_elem?, codes, decimal, same_text, ltb, leb,
  ◌==◌, if◌then◌else◌,
}
use cs.Common.Slots.{Slot, item, garbage}
use cs.Common.Arrays.{Array, new_array, grow, push, items_from, doubled}
use cs.Server.Buffer.{Buffer, append}
use cs.Shell.Table.{SimpleCommand, simple_command_insert_argument}

-- strchr(text, mark) != NULL, and what is in front of the mark.
unfoldable pub has : ℕ → List ℕ → Bool
has mark [] = false
has mark (c ∷ cs) = (c == mark) || has mark cs

unfoldable pub up_to : ℕ → List ℕ → List ℕ
up_to mark [] = []
up_to mark (c ∷ cs) = let rest = up_to mark cs in if c == mark then [] else c ∷ rest

abbrev pub has_wildcard : List ℕ → Bool
has_wildcard text = has 42 text || has 63 text

-- max_entries, num_entries and dir_array, which is NULL at first.
pub record Entries : Type 0 where
  pub max_entries : ℕ
  pub dir_array : Option (Array (List ℕ))

abbrev pub no_entries : Entries
no_entries = record { max_entries = 20; dir_array = none }

-- A string written to `char buffer[MAX_FILENAME]`.
abbrev pub filename : List ℕ → Option (List ℕ)
filename text = append (record { text = []; capacity = 1024 }) text >>= λ b. some b.text

-- The component up to a slash by strncpy, of which the bytes behind are read; or all by strcpy.
abbrev pub component_of : List ℕ → Option (List ℕ)
component_of suffix = if has 47 suffix then none else filename suffix

-- prefix and component. What is left of the suffix is empty, where nothing has faulted, so that the
-- call of expand_wildcards for the rest returns at once, and s is NULL.
pub record Split : Type 0 where
  pub prefix : List ℕ
  pub component : List ℕ

abbrev pub is_absolute : (prefix suffix : List ℕ) → Bool
is_absolute [] (c ∷ suffix) = c == 47
is_absolute _ _ = false

unfoldable pub split_suffix : (prefix suffix : List ℕ) → Option Split
split_suffix prefix suffix =
    let absolute : Option Split = component_of (drop 1 suffix) >>= λ component.
    some (record { prefix = codes "/"; component = component }) in
    let relative : Option Split = component_of suffix >>= λ component.
    some (record { prefix = prefix; component = component }) in
    if is_absolute prefix suffix then absolute else relative

-- new_prefix: a name behind a prefix.
abbrev pub prefixed : (prefix name : List ℕ) → List ℕ
prefixed [] name = name
prefixed (c ∷ []) name = if c == 47 then 47 ∷ name else c ∷ 47 ∷ name
prefixed (c ∷ prefix) name = (c ∷ prefix) ++ (47 ∷ name)

-- The regular expression for a component, in a buffer of 2 * strlen + 10 bytes.
unfoldable pub converted : List ℕ → List ℕ
converted [] = codes "$"
converted (c ∷ cs) =
    let rest = converted cs in
    if c == 42
    then 46 ∷ 42 ∷ rest
    else if c == 63
    then 46 ∷ rest
    else if c == 46
    then 92 ∷ 46 ∷ rest
    else c ∷ rest

abbrev pub regular_expression : List ℕ → Option (List ℕ)
regular_expression component =
    append (record { text = []; capacity = 2 * length component + 10 }) (94 ∷ converted component)
    >>= λ b. some b.text

abbrev pub is_hidden : List ℕ → Bool
is_hidden [] = false
is_hidden (c ∷ name) = c == 46

-- dir_array as it is allocated when it is NULL.
abbrev pub allocated_array : Entries → Array (List ℕ)
allocated_array e = elim e.dir_array [ none ↦ new_array e.max_entries | some a ↦ a ]

abbrev pub is_shown : (component name : List ℕ) → Bool
is_shown component name = not (is_hidden name) || is_hidden component

-- A round of the loop over a directory.
unfoldable pub add_entry :
    (matches : List ℕ → Bool) → Split → Array (List ℕ) → (d_name : List ℕ) → Option (Array (List ℕ))
add_entry matches split a d_name =
    let a' = grow doubled a in
    let added : Option (Array (List ℕ)) =
      filename (prefixed split.prefix d_name) >>= λ new_prefix. push doubled a' new_prefix in
    if matches d_name then (if is_shown split.component d_name then added else some a') else some a

unfoldable pub add_entries :
    (matches : List ℕ → Bool) → Split → Array (List ℕ) → List (List ℕ) → Option (Array (List ℕ))
add_entries matches split a [] = some a
add_entries matches split a (d_name ∷ names) =
    add_entry matches split a d_name >>= λ a. add_entries matches split a names

-- The entries that a listed directory leaves.
abbrev pub kept : Array (List ℕ) → Entries
kept a = record { max_entries = a.max; dir_array = some a }

abbrev pub starts_with_tilde : List ℕ → Bool
starts_with_tilde [] = false
starts_with_tilde (c ∷ arg) = c == 126

-- A number by sprintf in the bytes of an int.
abbrev pub number_text : ℕ → Option (List ℕ)
number_text n = append (record { text = []; capacity = 4 }) (decimal n) >>= λ b. some b.text

-- The bytes of temp with one of them set, and without the dollar sign at `q`, by memmove.
abbrev pub set_null : List ℕ → ℕ → List ℕ
set_null [] i = []
set_null (c ∷ cs) zero = 0 ∷ cs
set_null (c ∷ cs) (suc i) = c ∷ set_null cs i

abbrev pub unmarked : List ℕ → (q : ℕ) → List ℕ
unmarked bytes q =
    let n = length (c_string (drop q bytes)) in
    take q bytes ++ (take n (drop (q + 1) bytes) ++ drop (q + n) bytes)

-- A dollar sign at `i`: out, and the bytes of temp behind it.
unfoldable pub reference : List ℕ → (i : ℕ) → List ℕ × List ℕ
reference bytes i =
    let text = c_string (drop i bytes) in
    let braced = set_null bytes (i + length (up_to 125 text)) in
    let head = i + length (up_to 123 text) in
    let q = length (up_to 36 (c_string bytes)) in
    if has 123 text && has 125 text
    then (c_string (drop (head + 1) braced), braced)
    else (c_string (drop q (unmarked bytes q)), unmarked bytes q)

-- What the loop comes to: env_arg, or no end within the fuel, which has no counterpart in the code.
pub data Expanded : Type 0 where
  expanded : List ℕ → Expanded
  faults : Expanded
  out_of_fuel : Expanded

abbrev pub string_of : Expanded → Option (List ℕ)
string_of (expanded text) = some text
string_of _ = none

abbrev pub env_buffer : List ℕ → Buffer
env_buffer text = record { text = text; capacity = 1024 }

unfoldable pub insert_all_arguments : SimpleCommand → List (List ℕ) → Option SimpleCommand
insert_all_arguments c [] = some c
insert_all_arguments c (arg ∷ args) =
    simple_command_insert_argument c arg >>= λ c. insert_all_arguments c args

abbrev pub with_entries : Entries → SimpleCommand → Option (Entries × SimpleCommand)
with_entries e c = some (e, c)

abbrev pub found_entries : Option (Array (List ℕ)) → Option (Option (List (List ℕ)))
found_entries none = some none
found_entries (some a) = items_from a.num 0 a >>= λ names. some (some names)

abbrev pub continued : Option Buffer → (List ℕ → Expanded) → Expanded
continued none next = faults
continued (some b) next = next b.text

abbrev pub byte_of : Option ℕ → (ℕ → Expanded) → Expanded
byte_of none f = faults
byte_of (some c) f = f c

module _ (regcomp : List ℕ → Option (List ℕ → Bool)) (readdir : List ℕ → Option (List (List ℕ)))
    (qsort : List (List ℕ) → List (List ℕ)) (home : Option (List ℕ))
    (getenv : List ℕ → Option (List ℕ)) (cwd : List ℕ) (pid : ℕ) (regexec : List ℕ → Bool) where
  abbrev pub list_entries :
      (matches : List ℕ → Bool) → Split → Entries → Option (List (List ℕ)) → Option Entries
  list_entries matches split e none = some e
  list_entries matches split e (some names) =
      add_entries matches split (allocated_array e) names >>= λ a. some (kept a)

  abbrev pub directory_of : (prefix : List ℕ) → List ℕ
  directory_of [] = codes "."
  directory_of (c ∷ prefix) = c ∷ prefix

  abbrev pub match_entries : Split → Entries → Option (List ℕ → Bool) → Option Entries
  match_entries split e none = some e
  match_entries split e (some matches) =
      list_entries matches split e (readdir (directory_of split.prefix))

  unfoldable pub expand_split : Entries → Split → Option Entries
  expand_split e split =
      let plain : Option Entries =
        filename (prefixed split.prefix split.component) >>= λ new_prefix. some e in
      let wild : Option Entries =
        regular_expression split.component >>= λ reg. match_entries split e (regcomp reg) in
      if has_wildcard split.component then wild else plain

  unfoldable pub expand_wildcards : Entries → (prefix suffix : List ℕ) → Option Entries
  expand_wildcards e prefix [] = some e
  expand_wildcards e prefix (c ∷ suffix) =
      split_suffix prefix (c ∷ suffix) >>= λ split. expand_split e split

  -- The argument itself is written over; yytext by strdup has no room behind it.
  unfoldable pub tilde_expansion : List ℕ → Option (List ℕ)
  tilde_expansion arg =
      let room : Buffer = record { text = []; capacity = length arg + 1 } in
      let own : Option (List ℕ) = home >>= λ new_dir. append room new_dir >>= λ b. some b.text in
      let other : Option (List ℕ) =
        append (record { text = codes "/homes/"; capacity = 8 }) (drop 1 arg) >>= λ new_arg.
        append room new_arg.text >>= λ b. some b.text in
      if same_text arg (codes "~") || same_text arg (codes "~/") then own else other

  -- final: what a name stands for. "_" leaves it unset; getcwd allocates what it needs.
  unfoldable pub value_of : (last_pid last_return : ℕ) → List ℕ → Option (List ℕ)
  value_of last_pid last_return out =
      if same_text out (codes "SHELL") || same_text out (codes "SH")
      then (append (record { text = cwd; capacity = length cwd + 1 }) (codes "/shell") >>= λ b.
          some b.text)
      else if same_text out (codes "$")
      then number_text pid
      else if same_text out (codes "!")
      then number_text last_pid
      else if same_text out (codes "?")
      then number_text last_return
      else if same_text out (codes "_")
      then none
      else getenv out

  -- The loop at byte `i` of temp.
  unfoldable pub expand_at :
      (last_pid last_return : ℕ)
      → (fuel : ℕ) → (bytes : List ℕ) → (i : ℕ) → (env_arg : List ℕ) → Expanded
  expand_at last_pid last_return zero bytes i env_arg = out_of_fuel
  expand_at last_pid last_return (suc fuel) bytes i env_arg = byte_of (get_elem? bytes i) (λ c.
      let (out, bytes') = reference bytes i in
      let referred =
        continued (value_of last_pid last_return out >>= λ final. append (env_buffer env_arg) final)
          (λ text. expand_at last_pid last_return fuel bytes' (i + length out + 3) text) in
      let copied =
        continued (append (env_buffer env_arg) (c ∷ []))
          (λ text. expand_at last_pid last_return fuel bytes (i + 1) text) in
      let passed = expand_at last_pid last_return fuel bytes (i + 1) env_arg in
      if c == 0
      then expanded env_arg
      else if c == 36
      then referred
      else if not (c == 92)
      then copied
      else passed)

  -- The string and its null; each round goes on by a byte at least.
  unfoldable pub environment_expansion : (last_pid last_return : ℕ) → List ℕ → Option (List ℕ)
  environment_expansion last_pid last_return arg =
      let referring : Option (List ℕ) =
        string_of (expand_at last_pid last_return (length arg + 2) (arg ++ (0 ∷ [])) 0 []) in
      if regexec arg then referring else some arg

  -- An argument without wildcards.
  unfoldable pub single_argument : (last_pid last_return : ℕ) → List ℕ → Option (List ℕ)
  single_argument last_pid last_return arg =
      if starts_with_tilde arg
      then tilde_expansion arg
      else if has 36 arg
      then environment_expansion last_pid last_return arg
      else some arg

  -- The entries that were found, if there is more than one of them, or the argument itself.
  unfoldable pub insert_found :
      SimpleCommand → List ℕ → Entries → Option (List (List ℕ)) → Option (Entries × SimpleCommand)
  insert_found c arg e (some (x ∷ y ∷ names)) =
      insert_all_arguments c (qsort (x ∷ y ∷ names))
      >>= with_entries (record { max_entries = e.max_entries; dir_array = none })
  insert_found c arg e found = simple_command_insert_argument c arg >>= with_entries e

  unfoldable pub insert_arguments :
      (last_pid last_return : ℕ)
      → Entries
      → SimpleCommand
      → List ℕ
      → Option (Entries × SimpleCommand)
  insert_arguments last_pid last_return e c arg =
      let single : Option (Entries × SimpleCommand) =
        single_argument last_pid last_return arg >>= λ arg.
        simple_command_insert_argument c arg >>= with_entries e in
      let wild : Option (Entries × SimpleCommand) = expand_wildcards e [] arg >>= λ e.
      found_entries e.dir_array >>= λ found. insert_found c arg e found in
      if has_wildcard arg then wild else single
