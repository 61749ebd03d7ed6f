-- ===== src/Shell/Execute.antt =====
-- command_execute of lab3-src/command.c. The kernel's calls on descriptors, fork, chdir and getenv
-- are parameters; a descriptor is `none` where a call returned -1. `fault` is the use of what was not
-- set or of a null pointer, or a write past the end of a buffer.
pub mod Descriptors
pub mod Rounds
pub mod Last
pub mod Pipeline
pub mod Whole
pub mod Leaks
pub mod Numbered
mod Tests
use cs.Common.{
  ◌>>=◌, ℕ, zero, suc, ◌+◌, Bool, true, false, List, [], ◌∷◌, ◌++◌, Option, none, some, length,
  codes, same_text, ltb, ◌==◌, if◌then◌else◌,
}
use cs.Common.Slots.{Slot, garbage, null, item}
use cs.Shell.Table.{SimpleCommand, Command, command_clear}
use cs.Shell.Execute.Descriptors.{Mode, reads, appends, truncates, Kernel}

-- tmpin, tmpout and tmperr
pub record Saved : Type 0 where
  pub tmpin : Option ℕ
  pub tmpout : Option ℕ
  pub tmperr : Option ℕ

-- What a text in a slot is good for; a slot without one is a fault.
abbrev pub text_in : Slot (List ℕ) → Option (List ℕ)
text_in (item text) = some text
text_in _ = none

-- What unsetenv is given: a null pointer, which it refuses, or a text.
abbrev pub pointer_in : Slot (List ℕ) → Option (Option (List ℕ))
pointer_in garbage = none
pointer_in null = some none
pointer_in (item text) = some (some text)

abbrev pub argument : SimpleCommand → ℕ → Option (List ℕ)
argument s j = text_in (s.arguments.slot j)

module _ (k : Kernel) where
  -- What others see of it: the processes with their descriptors and command, and the calls that
  -- change the shell's own state.
  pub data Event : Type 0 where
    forked : k.Table → SimpleCommand → Event
    ambiguous : Event
    changes_directory : (to : List ℕ) → Bool → Event
    sets : (variable value : List ℕ) → (overwrite : ℕ) → Event
    unsets : (variable : Option (List ℕ)) → Event
    waits : (pid : ℕ) → Event
    prompts : Event
    says_good_bye : Event

  pub data Executed : Type 0 where
    returns : Command → k.Table → List Event → Executed
    exits : (status : ℕ) → List Event → Executed
    fault : Executed

  abbrev pub with_command : Option Command → (Command → Executed) → Executed
  with_command none f = Executed.fault
  with_command (some c) f = f c

  abbrev pub cleared : Command → (Command → Executed) → Executed
  cleared c f = with_command (command_clear c) f

  -- dup, dup2 and close, which do nothing to -1.
  abbrev pub dup_fd : k.Table → Option ℕ → Option ℕ × k.Table
  dup_fd t none = (none, t)
  dup_fd t (some fd) = k.dup t fd

  abbrev pub dup2_fd : k.Table → Option ℕ → ℕ → k.Table
  dup2_fd t none n = t
  dup2_fd t (some fd) n = k.dup2 t fd n

  abbrev pub close_fd : k.Table → Option ℕ → k.Table
  close_fd t none = t
  close_fd t (some fd) = k.close t fd

  -- dup2(fd, n); close(fd);
  abbrev pub redirect : k.Table → Option ℕ → ℕ → k.Table
  redirect t fd n = close_fd (dup2_fd t fd n) fd

  -- A file that the command names, or else a copy of a saved descriptor.
  abbrev pub open_or_dup : k.Table → Option (List ℕ) → Mode → Option ℕ → Option ℕ × k.Table
  open_or_dup t none mode saved = dup_fd t saved
  open_or_dup t (some path) mode saved = k.open_file t path mode

  -- The outputs of the last simple command: its errors are redirected, its output is open.
  abbrev pub out_mode : Command → Mode
  out_mode c = if c.is_appended == 1 then appends else truncates

  unfoldable pub last_outputs : Command → Saved → k.Table → Option ℕ × k.Table
  last_outputs c saved t =
      let (fderr, t) = open_or_dup t c.err_file appends saved.tmperr in
      open_or_dup (redirect t fderr 2) c.out_file (out_mode c) saved.tmpout

  -- What fdout and fdin become, in which table; `none` where there is no pipe.
  abbrev pub piped : Option ((ℕ × ℕ) × k.Table) → Option ((Option ℕ × Option ℕ) × k.Table)
  piped none = none
  piped (some ((reader, writer), t)) = some ((some writer, some reader), t)

  abbrev pub last_pair : Option ℕ × k.Table → Option ℕ → Option ((Option ℕ × Option ℕ) × k.Table)
  last_pair (fdout, t) fdin = some ((fdout, fdin), t)

  unfoldable pub outputs :
      (i : ℕ)
      → Command
      → Saved
      → (fdin : Option ℕ) → k.Table
      → Option ((Option ℕ × Option ℕ) × k.Table)
  outputs i c saved fdin t =
      if i + 1 == c.num_simple_commands
      then last_pair (last_outputs c saved t) fdin
      else piped (k.pipe t)

  -- Behind the loop: the shell's own descriptors again, waiting, and a cleared command.
  unfoldable pub restore : Saved → k.Table → k.Table
  restore saved t =
      let t = dup2_fd t saved.tmpin 0 in
      let t = dup2_fd t saved.tmpout 1 in
      let t = dup2_fd t saved.tmperr 2 in
      close_fd (close_fd (close_fd t saved.tmpin) saved.tmpout) saved.tmperr

  abbrev pub wait_for : Command → Slot ℕ → k.Table → List Event → Executed
  wait_for c (item ret) t events =
      if c.is_background == 0
      then cleared (record c { last_pid = ret })
          (λ c. returns c t (events ++ (waits ret ∷ prompts ∷ [])))
      else cleared c (λ c. returns c t (events ++ (prompts ∷ [])))
  wait_for c _ t events = Executed.fault

  module _ (forks : ℕ → Option ℕ) (chdir : List ℕ → Bool) (getenv : List ℕ → Option (List ℕ)) where
    -- A new process for the simple command; the shell gives up where fork fails.
    abbrev pub forks_off :
        Option ℕ
        → Command
        → SimpleCommand
        → k.Table
        → List Event
        → (Slot ℕ → List Event → Executed)
        → Executed
    forks_off none c s t events next = returns (record c { last_return = 1 }) t events
    forks_off (some pid) c s t events next = next (item pid) (events ++ (forked t s ∷ []))

    -- A built-in command returns with the descriptors as they are.
    abbrev pub built_in : Command → k.Table → List Event → Option Event → Executed
    built_in c t events none = Executed.fault
    built_in c t events (some event) =
        cleared c (λ c. returns c t (events ++ (event ∷ prompts ∷ [])))

    -- cd: where chdir fails the directory is printed by way of `char err_msg[1024]`.
    abbrev pub directory : SimpleCommand → Option (List ℕ)
    directory s = if ltb 1 s.num_arguments then argument s 1 else getenv (codes "HOME")

    abbrev pub fits_message : Option (List ℕ) → Event → Option Event
    fits_message none event = none
    fits_message (some dir_name) event =
        if ltb (length (codes "cd: ") + length dir_name) 1024 then some event else none

    unfoldable pub change_directory : SimpleCommand → Option Event
    change_directory s = do
      to ← directory s
      if chdir to
          then some (changes_directory to true)
          else fits_message (argument s 1) (changes_directory to false)

    abbrev pub overwrites : Option (List ℕ) → ℕ
    overwrites none = 0
    overwrites (some old) = 1

    unfoldable pub set_variable : SimpleCommand → Option Event
    set_variable s = do
      variable ← argument s 1
      value ← argument s 2
      some (sets variable value (overwrites (getenv variable)))

    unfoldable pub unset_variable : SimpleCommand → Option Event
    unset_variable s = do variable ← pointer_in (s.arguments.slot 1); some (unsets variable)

    abbrev pub leave : Command → List Event → Executed
    leave c events = cleared c (λ c. exits 0 (events ++ (says_good_bye ∷ [])))

    -- A simple command whose output is fdout: built in, or a process of its own.
    unfoldable pub start :
        (i : ℕ)
        → Command
        → SimpleCommand
        → (name : List ℕ) → k.Table
        → List Event
        → (Slot ℕ → List Event → Executed)
        → Executed
    start i c s name t events next =
        if same_text name (codes "cd")
        then built_in c t events (change_directory s)
        else if same_text name (codes "setenv")
        then built_in c t events (set_variable s)
        else if same_text name (codes "unsetenv")
        then built_in c t events (unset_variable s)
        else forks_off (forks i) c s t events next

    -- One round, with the rest of the loop as `next`.
    abbrev pub connected :
        Option ((Option ℕ × Option ℕ) × k.Table)
        → (i : ℕ) → Command
        → SimpleCommand
        → (name : List ℕ) → List Event
        → (Option ℕ → Slot ℕ → k.Table → List Event → Executed)
        → Executed
    connected none i c s name events next = exits 1 events
    connected (some ((fdout, fdin), t)) i c s name events next =
        start i c s name (redirect t fdout 1) events
          (λ ret events. next fdin ret (redirect t fdout 1) events)

    abbrev pub named_round :
        (i : ℕ)
        → Command
        → Saved
        → (fdin : Option ℕ) → k.Table
        → List Event
        → (Option ℕ → Slot ℕ → k.Table → List Event → Executed)
        → SimpleCommand
        → (name : List ℕ) → Executed
    named_round i c saved fdin t events next s name =
        if same_text name (codes "exit")
        then leave c events
        else connected (outputs i c saved fdin (redirect t fdin 0)) i c s name events next

    abbrev pub with_text : Option (List ℕ) → ((name : List ℕ) → Executed) → Executed
    with_text none f = Executed.fault
    with_text (some name) f = f name

    abbrev pub with_name :
        Slot SimpleCommand → (SimpleCommand → (name : List ℕ) → Executed) → Executed
    with_name (item s) f = with_text (argument s 0) (f s)
    with_name _ f = Executed.fault

    -- The loop over the simple commands from `i` on, `count` of them.
    unfoldable pub run :
        (count i : ℕ)
        → Command
        → Saved
        → (fdin : Option ℕ) → (ret : Slot ℕ) → k.Table
        → List Event
        → Executed
    run zero i c saved fdin ret t events = wait_for c ret (restore saved t) events
    run (suc count) i c saved fdin ret t events = with_name (c.simple_commands.slot i) (
        named_round i c saved fdin t events
          (λ fdin ret t events. run count (i + 1) c saved fdin ret t events))

    -- Behind the tests: the saved descriptors and the first input.
    unfoldable pub execute_all : Command → k.Table → Executed
    execute_all c t =
        let events = if ltb 1 c.outfile_counter then ambiguous ∷ [] else [] in
        let (tmpin, t) = k.dup t 0 in
        let (tmpout, t) = k.dup t 1 in
        let (tmperr, t) = k.dup t 2 in
        let (fdin, t) = open_or_dup t c.in_file reads tmpin in
        let saved : Saved = record { tmpin = tmpin; tmpout = tmpout; tmperr = tmperr } in
        run c.num_simple_commands 0 c saved fdin garbage t events

    unfoldable pub command_execute : Command → k.Table → Executed
    command_execute c t =
        if c.num_simple_commands == 0
        then returns c t (prompts ∷ [])
        else with_name (c.simple_commands.slot 0)
            λ s name. if same_text name (codes "exit") then leave c [] else execute_all c t
