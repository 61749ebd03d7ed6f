-- ===== src/Shell/Execute/Tests.antt =====
-- command_execute of lab3-src/command.c at `ls | wc > out`, with a kernel that hands out numbers above
-- all those in use.
use cs.Common.{
  ℕ, ◌+◌, ◌≡◌, refl, true, List, [], ◌∷◌, ◌++◌, none, some, codes, same_text, ◌==◌, if◌then◌else◌,
  arith,
}
use cs.Common.Slots.{null, item}
use cs.Shell.Table.{SimpleCommand, Command, command_create}
use cs.Shell.Filled.{IsTable, IsFilled}
use cs.Shell.Execute.Numbered.{Numbered, file_at, kernel, kernel-IsKernel, three, out-Gives}
use cs.Shell.Execute.{Event, returns, command_execute}
use cs.Shell.Execute.Leaks.{Leaks}
use cs.Shell.Execute.Pipeline.{IsProgram, Wired}
use cs.Shell.Execute.Whole.{warning, ending, command_execute-Wired}

abbrev simple : List ℕ → SimpleCommand
simple name = record {
  num_available_arguments = 5;
  num_arguments = 1;
  arguments = record { room = 5; slot = λ k. if k == 0 then item name else null };
}

simple-IsFilled : (name : List ℕ) → IsFilled (simple name) (name ∷ [])
simple-IsFilled name = record {
  count = refl;
  room = refl;
  spare = omega arith;
  stored = (refl, tt);
}

abbrev ls : SimpleCommand
ls = simple (codes "ls")

abbrev wc : SimpleCommand
wc = simple (codes "wc")

ls-IsProgram : IsProgram ls
unfolding same_text
ls-IsProgram = record {
  name = codes "ls";
  stored = refl;
  no_exit = refl;
  no_cd = refl;
  no_setenv = refl;
  no_unsetenv = refl;
}

wc-IsProgram : IsProgram wc
unfolding same_text
wc-IsProgram = record {
  name = codes "wc";
  stored = refl;
  no_exit = refl;
  no_cd = refl;
  no_setenv = refl;
  no_unsetenv = refl;
}

abbrev pipeline : Command
pipeline = record command_create {
  num_available_simple_commands = 2;
  num_simple_commands = 2;
  simple_commands = record { room = 2; slot = λ k. if k == 0 then item ls else item wc };
  out_file = some (codes "out");
}

pipeline-IsTable : IsTable pipeline (ls ∷ wc ∷ [])
pipeline-IsTable = record {
  count = refl;
  room = refl;
  spare = omega arith;
  some_room = omega arith;
  stored = (refl, (refl, tt));
}

command_execute-Wired_example :
    (c' : Command) × (t' : Numbered) × (es : List (Event kernel)) × (command_execute kernel
        (λ i. some (7 + i))
        (λ d. true)
        (λ v. none)
        pipeline
        three
      ≡ returns c' t' ((warning kernel pipeline ++ es) ++ ending kernel pipeline 8))
    × Wired kernel kernel-IsKernel 2 103 2 0 ls (wc ∷ []) es
    × ((m : ℕ) → file_at t' m ≡ file_at three m)
    × IsTable c' []
command_execute-Wired_example =
    command_execute-Wired kernel kernel-IsKernel (λ i. 7 + i) (λ d. true) (λ v. none) pipeline ls
      (wc ∷ []) three 0 1 2 (record { zero_in = refl; one_out = refl; two_err = refl })
      pipeline-IsTable
      (
        (codes "ls" ∷ [], simple-IsFilled (codes "ls")),
        ((codes "wc" ∷ [], simple-IsFilled (codes "wc")), tt),
      )
      (ls-IsProgram, (wc-IsProgram, tt)) tt tt out-Gives

-- `cd lab3 > out`.
abbrev cd_lab3 : SimpleCommand
cd_lab3 = record {
  num_available_arguments = 5;
  num_arguments = 2;
  arguments = record {
    room = 5;
    slot = λ k. if k == 0 then item (codes "cd") else if k == 1 then item (codes "lab3") else null;
  };
}

abbrev moving : Command
moving = record command_create {
  num_simple_commands = 1;
  simple_commands = record { room = 1; slot = λ k. item cd_lab3 };
  out_file = some (codes "out");
}
