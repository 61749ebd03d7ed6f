-- ===== src/Shell/Filled.antt =====
-- The lists that the command table of lab3-src/command.c holds.
use mathlib.Core.List.{append_assoc, append-nil}
use cs.Common.{
  ◌>>=◌, after_some, ℕ, ◌+◌, ◌≤◌, ◌<◌, ◌≡◌, refl, sym, subst, inl, inr, Bool-cases, List, [], ◌∷◌,
  ◌++◌, Option, some, length, length-append, ◌==◌, arith,
}
use cs.Common.Slots.{
  null, item, Slots, changed, assign-some, changed-same, Stored, Stored-changed, Stored-append,
}
use cs.Shell.Table.{
  SimpleCommand, Command, simple_command_create, grow_arguments, simple_command_insert_argument,
  command_create, grow_commands, command_insert_simple_command,
}

-- The simple command has these arguments, with room for the null behind them.
pub record IsFilled (c : SimpleCommand) (args : List (List ℕ)) : Type 0 where
  pub count : c.num_arguments ≡ length args
  pub room : c.arguments.room ≡ c.num_available_arguments
  pub spare : length args < c.num_available_arguments
  pub stored : Stored c.arguments.slot 0 args

-- An argument list as execvp reads it ends in a null.
abbrev pub IsTerminated : SimpleCommand → Type 0
IsTerminated c = c.arguments.slot c.num_arguments ≡ null

pub create-IsFilled : IsFilled simple_command_create []
create-IsFilled = record { count = refl; room = refl; spare = omega arith; stored = tt }

-- What growing leaves: the same arguments, and room for one more.
grow-IsFilled :
    (c : SimpleCommand) (args : List (List ℕ))
    → IsFilled c args
    → IsFilled (grow_arguments c) args
      × (length args + 1 < (grow_arguments c).num_available_arguments)
unfolding grow_arguments
grow-IsFilled c args h = elim (Bool-cases (c.num_available_arguments == c.num_arguments + 1)) [
  | inl e ↦
      let full : c.num_available_arguments ≡ c.num_arguments + 1 = ground arith in
      rw e (
        record { count = h.count; room = refl; spare = omega (arith, h.spare); stored = h.stored },
        omega (arith, h.count, h.spare),
      )
  | inr e ↦ rw e (h, ground (arith, h.count, h.spare))
]

-- An insertion stays within the array, adds the argument at the end, and puts a null behind it.
pub simple_command_insert_argument-IsFilled :
    (c : SimpleCommand) (args : List (List ℕ)) (argument : List ℕ)
    → IsFilled c args
    → (c' : SimpleCommand) × (simple_command_insert_argument c argument ≡ some c')
      × IsFilled c' (args ++ (argument ∷ []))
      × IsTerminated c'
unfolding simple_command_insert_argument
simple_command_insert_argument-IsFilled c args argument h =
    let g = grow_arguments c in
    let (k, spare) = grow-IsFilled c args h in
    let n = g.num_arguments in
    let f1 = changed g.arguments.slot n (item argument) in
    let a1 : Slots (List ℕ) = record g.arguments { slot = f1 } in
    let first = assign-some g.arguments n (item argument) (omega (arith, k.count, k.room)) in
    let second = assign-some a1 (n + 1) null (omega (arith, k.count, k.room)) in
    let f2 = changed f1 (n + 1) null in
    let at_end : f2 (0 + length args) ≡ item argument = ground (arith, k.count) in
    let grown = length-append args (argument ∷ []) in
    (
      record g { arguments = record a1 { slot = f2 }; num_arguments = n + 1 },
      after_some _ first (after_some _ second refl),
      record {
        count = omega (arith, k.count, grown);
        room = k.room;
        spare = omega (arith, grown, spare);
        stored =
            Stored-append f2 0 args argument
              (Stored-changed f1 0 (n + 1) null args (omega (arith, k.count)) (
                Stored-changed g.arguments.slot 0 n (item argument) args (omega (arith, k.count))
                  k.stored))
              at_end;
      },
      changed-same f1 (n + 1) null,
    )

-- The table has these simple commands, each with its list of arguments, and its redirections and
-- flags are whatever they are.
pub record IsTable (c : Command) (commands : List SimpleCommand) : Type 0 where
  pub count : c.num_simple_commands ≡ length commands
  pub room : c.simple_commands.room ≡ c.num_available_simple_commands
  pub spare : length commands ≤ c.num_available_simple_commands
  pub some_room : 1 ≤ c.num_available_simple_commands
  pub stored : Stored c.simple_commands.slot 0 commands

pub create-IsTable : IsTable command_create []
create-IsTable = record {
  count = refl;
  room = refl;
  spare = omega arith;
  some_room = omega arith;
  stored = tt;
}

grow-IsTable :
    (c : Command) (commands : List SimpleCommand)
    → IsTable c commands
    → IsTable (grow_commands c) commands
      × (length commands < (grow_commands c).num_available_simple_commands)
unfolding grow_commands
grow-IsTable c commands h =
    elim (Bool-cases (c.num_available_simple_commands == c.num_simple_commands)) [
      | inl e ↦
          let full : c.num_available_simple_commands ≡ c.num_simple_commands = ground arith in
          rw e (
            record {
              count = h.count;
              room = refl;
              spare = omega (arith, h.spare);
              some_room = omega (arith, h.some_room);
              stored = h.stored;
            },
            omega (arith, h.count, h.some_room),
          )
      | inr e ↦ rw e (h, ground (arith, h.count, h.spare))
    ]

-- An insertion into the table stays within its array and adds the simple command at the end.
pub command_insert_simple_command-IsTable :
    (c : Command) (commands : List SimpleCommand) (s : SimpleCommand)
    → IsTable c commands
    → (c' : Command) × (command_insert_simple_command c s ≡ some c')
      × IsTable c' (commands ++ (s ∷ []))
unfolding command_insert_simple_command
command_insert_simple_command-IsTable c commands s h =
    let g = grow_commands c in
    let (k, spare) = grow-IsTable c commands h in
    let n = g.num_simple_commands in
    let f = changed g.simple_commands.slot n (item s) in
    let done = assign-some g.simple_commands n (item s) (omega (arith, k.count, k.room, spare)) in
    let at_end : f (0 + length commands) ≡ item s = ground (arith, k.count) in
    let grown = length-append commands (s ∷ []) in
    (
      record g {
        simple_commands = record g.simple_commands { slot = f };
        num_simple_commands = n + 1;
      },
      after_some _ done refl,
      record {
        count = omega (arith, k.count, grown);
        room = k.room;
        spare = omega (arith, grown, spare);
        some_room = k.some_room;
        stored =
            Stored-append f 0 commands s
              (Stored-changed g.simple_commands.slot 0 n (item s) commands (omega (arith, k.count))
                k.stored)
              at_end;
      },
    )

-- The arguments of a list inserted one after the other.
abbrev pub insert_all : SimpleCommand → List (List ℕ) → Option SimpleCommand
insert_all c [] = some c
insert_all c (a ∷ more) = simple_command_insert_argument c a >>= λ c. insert_all c more

pub insert_all-onto :
    (c : SimpleCommand) (args more : List (List ℕ))
    → IsFilled c args
    → (c' : SimpleCommand) × (insert_all c more ≡ some c') × IsFilled c' (args ++ more)
insert_all-onto c args [] h = (c, refl, subst (IsFilled c) (sym (append-nil args)) h)
insert_all-onto c args (a ∷ more) h =
    let (c1, e1, h1, _) = simple_command_insert_argument-IsFilled c args a h in
    let (c2, e2, h2) = insert_all-onto c1 (args ++ (a ∷ [])) more h1 in
    (c2, after_some _ e1 e2, subst (IsFilled c2) (append_assoc args (a ∷ []) more) h2)
