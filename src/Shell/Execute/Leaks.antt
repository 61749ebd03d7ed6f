-- ===== src/Shell/Execute/Leaks.antt =====
-- What a built-in command in command_execute of lab3-src/command.c leaves of the descriptors.
use cs.Common.{ℕ, ◌≡◌, ◌≢◌, none, some, codes}
use cs.Common.Slots.{item}
use cs.Shell.Table.{SimpleCommand, Command}
use cs.Shell.Execute.Descriptors.{reads, appends, Kernel, IsKernel, chosen, IsShell}
use cs.Shell.Execute.{out_mode}

-- A simple command that is cd.
abbrev pub IsCd : SimpleCommand → Type 0
IsCd s = s.arguments.slot 0 ≡ item (codes "cd")

module _ (k : Kernel) (laws : IsKernel k) where
  -- Three descriptors, not in use before, for the files that the shell's own stood for, which stand
  -- for the command's files now.
  abbrev pub Leaks : Command → (t t' : k.Table) → (input output errors : k.File) → Type 0
  Leaks c t t' input output errors =
      (a : ℕ) × (b : ℕ) × (d : ℕ) × ((k.at t a ≡ none) × (k.at t b ≡ none) × (k.at t d ≡ none))
      × ((k.at t' a ≡ some input) × (k.at t' b ≡ some output) × (k.at t' d ≡ some errors))
      × ((a ≢ b) × (a ≢ d) × (b ≢ d))
      × IsShell k t' (chosen k c.in_file reads input) (chosen k c.out_file (out_mode k c) output)
          (chosen k c.err_file appends errors)
