-- ===== src/Shell/Tests.antt =====
-- The theorems about lab3-src/command.c at a table with the command `ls -l`.
use cs.Common.{◌≡◌, List, [], ◌∷◌, ◌++◌, some, codes, ℕ}
use cs.Shell.Table.{
  SimpleCommand, Command, simple_command_create, simple_command_insert_argument, command_create,
  command_insert_simple_command, command_clear,
}
use cs.Shell.Filled.{
  IsFilled, IsTerminated, create-IsFilled, simple_command_insert_argument-IsFilled, IsTable,
  create-IsTable, command_insert_simple_command-IsTable, insert_all, insert_all-onto,
}
use cs.Shell.Cleared.{settings, command_clear-IsTable}

abbrev arguments : List (List ℕ)
arguments = codes "ls" ∷ codes "-l" ∷ []

abbrev listing :
    (c : SimpleCommand) × (insert_all simple_command_create arguments ≡ some c)
    × IsFilled c arguments
listing = insert_all-onto simple_command_create [] arguments create-IsFilled

simple_command_insert_argument-IsFilled_example :
    (c : SimpleCommand) × (simple_command_insert_argument listing.0 (codes "lab3") ≡ some c)
    × IsFilled c (arguments ++ (codes "lab3" ∷ []))
    × IsTerminated c
simple_command_insert_argument-IsFilled_example =
    simple_command_insert_argument-IsFilled listing.0 arguments (codes "lab3") listing.2

abbrev entry :
    (c : Command) × (command_insert_simple_command command_create listing.0 ≡ some c)
    × IsTable c (listing.0 ∷ [])
entry = command_insert_simple_command-IsTable command_create [] listing.0 create-IsTable

command_clear-IsTable_example :
    (c : Command) × (command_clear entry.0 ≡ some c)
    × IsTable c []
    × (settings c ≡ settings command_create)
    × (c.num_available_simple_commands ≡ entry.0.num_available_simple_commands)
command_clear-IsTable_example =
    command_clear-IsTable entry.0 (listing.0 ∷ []) entry.2 ((arguments, listing.2), tt)
