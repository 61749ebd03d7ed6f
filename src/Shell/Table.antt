-- ===== src/Shell/Table.antt =====
-- The command table of lab3-src/command.c and command.h: creating, filling and clearing it. The
-- counters of the table are ints and stay far below 2^31, so they are plain numbers. A simple command
-- is no longer changed once it is in the table, so its slot holds its value. `none` is a write or a
-- free outside what was allocated.
use cs.Common.{◌>>=◌, ℕ, zero, suc, ◌+◌, ◌*◌, List, Option, none, some, ◌==◌, if◌then◌else◌}
use cs.Common.Slots.{Slot, garbage, null, item, Slots, fresh, resize, assign}

-- INITIAL_ARUMENT_ARR_SIZE
abbrev pub initial_arguments : ℕ
initial_arguments = 5

pub record SimpleCommand : Type 0 where
  pub num_available_arguments : ℕ
  pub num_arguments : ℕ
  pub arguments : Slots (List ℕ)

-- The flags are ints that are tested against 0 and 1.
pub record Command : Type 0 where
  pub num_available_simple_commands : ℕ
  pub num_simple_commands : ℕ
  pub simple_commands : Slots SimpleCommand
  pub out_file : Option (List ℕ)
  pub in_file : Option (List ℕ)
  pub err_file : Option (List ℕ)
  pub is_background : ℕ
  pub is_appended : ℕ
  pub outfile_counter : ℕ
  pub is_cleared : ℕ
  pub last_pid : ℕ
  pub last_return : ℕ

abbrev pub simple_command_create : SimpleCommand
simple_command_create = record {
  num_available_arguments = initial_arguments;
  num_arguments = 0;
  arguments = fresh initial_arguments;
}

-- Room for one argument and the null behind it: the space is doubled.
unfoldable pub grow_arguments : SimpleCommand → SimpleCommand
grow_arguments c =
    if c.num_available_arguments == c.num_arguments + 1
    then record c {
      num_available_arguments = c.num_available_arguments * 2;
      arguments = resize c.arguments (c.num_available_arguments * 2);
    }
    else c

unfoldable pub simple_command_insert_argument : SimpleCommand → List ℕ → Option SimpleCommand
simple_command_insert_argument c argument = do
  let c = grow_arguments c
  a ← assign c.arguments c.num_arguments (item argument)
  a ← assign a (c.num_arguments + 1) null
  some (record c { arguments = a; num_arguments = c.num_arguments + 1 })

abbrev pub command_create : Command
command_create = record {
  num_available_simple_commands = 1;
  num_simple_commands = 0;
  simple_commands = fresh 1;
  out_file = none;
  in_file = none;
  err_file = none;
  is_background = 0;
  is_appended = 0;
  outfile_counter = 0;
  is_cleared = 1;
  last_pid = 0;
  last_return = 0;
}

unfoldable pub grow_commands : Command → Command
grow_commands c =
    if c.num_available_simple_commands == c.num_simple_commands
    then record c {
      num_available_simple_commands = c.num_available_simple_commands * 2;
      simple_commands = resize c.simple_commands (c.num_available_simple_commands * 2);
    }
    else c

unfoldable pub command_insert_simple_command : Command → SimpleCommand → Option Command
command_insert_simple_command c s_command = do
  let c = grow_commands c
  a ← assign c.simple_commands c.num_simple_commands (item s_command)
  some (record c { simple_commands = a; num_simple_commands = c.num_simple_commands + 1 })

-- free of the pointer in a slot, which may be null.
unfoldable pub free_slot : Slot (List ℕ) → Option {0} Unit
free_slot garbage = none
free_slot null = some tt
free_slot (item x) = some tt

-- free(arguments[j]) and the reset of the slot, for `count` arguments from `j` on.
unfoldable pub clear_arguments : (count j : ℕ) → Slots (List ℕ) → Option (Slots (List ℕ))
clear_arguments zero j a = some a
clear_arguments (suc count) j a = do
  freed ← free_slot (a.slot j)
  a ← assign a j null
  clear_arguments count (j + 1) a

-- A simple command with its arguments; reading a slot that holds none is a fault.
unfoldable pub clear_simple : Slot SimpleCommand → Option {0} Unit
clear_simple (item s) = clear_arguments s.num_arguments 0 s.arguments >>= λ a. some tt
clear_simple _ = none

-- The simple commands, for `count` of them from `i` on.
unfoldable pub clear_commands : (count i : ℕ) → Slots SimpleCommand → Option (Slots SimpleCommand)
clear_commands zero i a = some a
clear_commands (suc count) i a = do
  freed ← clear_simple (a.slot i)
  a ← assign a i null
  clear_commands count (i + 1) a

unfoldable pub command_clear : Command → Option Command
command_clear c = do
  a ← clear_commands c.num_simple_commands 0 c.simple_commands
  some (record c {
    simple_commands = a;
    num_simple_commands = 0;
    out_file = none;
    in_file = none;
    err_file = none;
    is_background = 0;
    is_appended = 0;
    outfile_counter = 0;
    is_cleared = 1;
    last_pid = 0;
    last_return = 0;
  })
