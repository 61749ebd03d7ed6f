-- ===== src/Shell/Session/Prepared.antt =====
-- What the actions of a line of lab3-src/shell.y make of the command table.
use mathlib.Core.Option.{some-injective}
use cs.Common.{
  ◌>>=◌, ℕ, ◌+◌, ◌≡◌, refl, sym, ap, subst, ◌∙◌, Bool, true, false, ◌||◌, List, [], ◌∷◌, Option,
  none, some, Bool-cases, inl, inr, if◌then◌else◌, ◌==◌, arith,
}
use cs.Common.Slots.{Slots, item, assign, Stored}
use cs.Shell.Table.{SimpleCommand, Command, grow_commands, command_insert_simple_command}
use cs.Shell.Filled.{IsTable}
use cs.Shell.Grammar.{
  Modifier, rewrites, appends_to, errors_to, appends_errors_to, takes_from, redirects_errors,
}
use cs.Shell.Session.{modify}

-- What of a table its simple commands do not change.
abbrev pub named_files :
    Command → Option (List ℕ) × Option (List ℕ) × Option (List ℕ) × ℕ × ℕ × ℕ × ℕ × ℕ
named_files c = (
  c.out_file, c.in_file, c.err_file, c.is_background, c.is_appended, c.outfile_counter, c.last_pid,
  c.last_return,
)

abbrev pub simple_part : Command → ℕ × ℕ × Slots SimpleCommand
simple_part c = (c.num_available_simple_commands, c.num_simple_commands, c.simple_commands)

pub IsTable-same :
    (c c' : Command) (commands : List SimpleCommand)
    → simple_part c' ≡ simple_part c
    → IsTable c commands
    → IsTable c' commands
IsTable-same c c' commands e h =
    let available = ap (λ (p : ℕ × ℕ × Slots SimpleCommand). p.0) e in
    let count = ap (λ (p : ℕ × ℕ × Slots SimpleCommand). p.1) e in
    let slots = ap (λ (p : ℕ × ℕ × Slots SimpleCommand). p.2) e in
    record {
      count = count ∙ h.count;
      room = ap (λ a. a.room) slots ∙ h.room ∙ sym available;
      spare = omega (arith, available, h.spare);
      some_room = omega (arith, available, h.some_room);
      stored = subst (λ a. Stored a.slot 0 commands) (sym slots) h.stored;
    }

grow-named_files : (c : Command) → named_files (grow_commands c) ≡ named_files c
unfolding grow_commands
grow-named_files c = elim (Bool-cases (c.num_available_simple_commands == c.num_simple_commands)) [
  | inl e ↦ rw e refl
  | inr e ↦ rw e refl
]

assigned-named_files :
    (g c' : Command) (n : ℕ) (m : Option (Slots SimpleCommand))
    → (m >>= λ a. some (record g { simple_commands = a; num_simple_commands = n })) ≡ some c'
    → named_files c' ≡ named_files g
assigned-named_files g c' n none e = ground arith
assigned-named_files g c' n (some a) e = ap named_files (sym (some-injective _ _ e))

pub insert-named_files :
    (c c' : Command) (s : SimpleCommand)
    → command_insert_simple_command c s ≡ some c'
    → named_files c' ≡ named_files c
unfolding command_insert_simple_command
insert-named_files c c' s e =
    let g = grow_commands c in
    assigned-named_files g c' (g.num_simple_commands + 1)
      (assign g.simple_commands g.num_simple_commands (item s)) e
    ∙ grow-named_files c

-- The word of the last modifier that passes a test, or else what was there.
abbrev pub last_word :
    (Modifier → Bool) → List (Modifier × List ℕ) → Option (List ℕ) → Option (List ℕ)
last_word test [] default = default
last_word test ((m, w) ∷ ms) default = last_word test ms (if test m then some w else default)

abbrev pub any_modifier : (Modifier → Bool) → List (Modifier × List ℕ) → Bool
any_modifier test [] = false
any_modifier test ((m, w) ∷ ms) = test m || any_modifier test ms

abbrev pub names_output : Modifier → Bool
names_output rewrites = true
names_output appends_to = true
names_output _ = false

abbrev pub names_errors : Modifier → Bool
names_errors errors_to = true
names_errors appends_errors_to = true
names_errors redirects_errors = true
names_errors _ = false

abbrev pub names_input : Modifier → Bool
names_input takes_from = true
names_input _ = false

abbrev pub appends : Modifier → Bool
appends appends_to = true
appends appends_errors_to = true
appends _ = false

abbrev pub count_modifiers : (Modifier → Bool) → List (Modifier × List ℕ) → ℕ
count_modifiers test [] = 0
count_modifiers test ((m, w) ∷ ms) =
    if test m then 1 + count_modifiers test ms else count_modifiers test ms

-- The modifiers one after the other.
unfoldable pub modify_all : List (Modifier × List ℕ) → Command → Command
modify_all [] c = c
modify_all ((m, w) ∷ ms) c = modify_all ms (modify m w c)

-- What is named behind a line's modifiers, and if the output is appended.
pub record IsModified (ms : List (Modifier × List ℕ)) (c c' : Command) : Type 0 where
  pub output : c'.out_file ≡ last_word names_output ms c.out_file
  pub input : c'.in_file ≡ last_word names_input ms c.in_file
  pub errors : c'.err_file ≡ last_word names_errors ms c.err_file
  pub appended : c'.is_appended ≡ (if any_modifier appends ms then 1 else c.is_appended)
  pub outputs : c'.outfile_counter ≡ c.outfile_counter + count_modifiers names_output ms
  pub simple : simple_part c' ≡ simple_part c
  pub background : c'.is_background ≡ c.is_background

modify-IsModified :
    (m : Modifier) (w : List ℕ) (c : Command) → IsModified ((m, w) ∷ []) c (modify m w c)
unfolding modify
modify-IsModified rewrites w c = record {
  output = refl;
  input = refl;
  errors = refl;
  appended = refl;
  outputs = refl;
  simple = refl;
  background = refl;
}
modify-IsModified appends_to w c = record {
  output = refl;
  input = refl;
  errors = refl;
  appended = refl;
  outputs = refl;
  simple = refl;
  background = refl;
}
modify-IsModified errors_to w c = record {
  output = refl;
  input = refl;
  errors = refl;
  appended = refl;
  outputs = omega arith;
  simple = refl;
  background = refl;
}
modify-IsModified appends_errors_to w c = record {
  output = refl;
  input = refl;
  errors = refl;
  appended = refl;
  outputs = omega arith;
  simple = refl;
  background = refl;
}
modify-IsModified takes_from w c = record {
  output = refl;
  input = refl;
  errors = refl;
  appended = refl;
  outputs = omega arith;
  simple = refl;
  background = refl;
}
modify-IsModified redirects_errors w c = record {
  output = refl;
  input = refl;
  errors = refl;
  appended = refl;
  outputs = omega arith;
  simple = refl;
  background = refl;
}

pub modify_all-IsModified :
    (ms : List (Modifier × List ℕ)) (c : Command) → IsModified ms c (modify_all ms c)
unfolding modify_all
modify_all-IsModified [] c = record {
  output = refl;
  input = refl;
  errors = refl;
  appended = refl;
  outputs = omega arith;
  simple = refl;
  background = refl;
}
modify_all-IsModified ((m, w) ∷ ms) c =
    let one = modify-IsModified m w c in
    let more = modify_all-IsModified ms (modify m w c) in
    record {
      output = more.output ∙ ap (last_word names_output ms) one.output;
      input = more.input ∙ ap (last_word names_input ms) one.input;
      errors = more.errors ∙ ap (last_word names_errors ms) one.errors;
      appended = ground (arith, more.appended, one.appended);
      outputs = ground (arith, more.outputs, one.outputs);
      simple = more.simple ∙ one.simple;
      background = more.background ∙ one.background;
    }
