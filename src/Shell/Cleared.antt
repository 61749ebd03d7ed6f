-- ===== src/Shell/Cleared.antt =====
-- command_clear of lab3-src/command.c.
use cs.Common.{
  after_some, ℕ, ◌+◌, ◌≤◌, ◌<◌, ◌≡◌, refl, sym, ap, subst, ◌∙◌, List, [], ◌∷◌, Option, some, length,
  All, arith,
}
use cs.Common.Slots.{Slot, item, null, Slots, changed, assign-some, changed-other, Stored}
use cs.Shell.Table.{
  SimpleCommand, Command, command_create, free_slot, clear_arguments, clear_simple, clear_commands,
  command_clear,
}
use cs.Shell.Filled.{IsFilled, IsTable}

-- A write in front of the items leaves them alone.
Stored-ahead :
    {A : Type 0} (f : ℕ → Slot A) (k i : ℕ) (y : Slot A) (xs : List A)
    → i < k
    → Stored f k xs
    → Stored (changed f i y) k xs
Stored-ahead f k i y [] lt h = tt
Stored-ahead f k i y (x ∷ xs) lt h = (
  subst (λ c. c ≡ item x) (sym (changed-other f i k y (omega arith))) h.0,
  Stored-ahead f (k + 1) i y xs (omega arith) h.1,
)

clear_arguments-some :
    (a : Slots (List ℕ)) (j : ℕ) (args : List (List ℕ))
    → j + length args ≤ a.room
    → Stored a.slot j args
    → (a' : Slots (List ℕ)) × (clear_arguments (length args) j a ≡ some a')
unfolding clear_arguments free_slot
clear_arguments-some a j [] le h = (a, refl)
clear_arguments-some a j (x ∷ xs) le h =
    let a1 : Slots (List ℕ) = record a { slot = changed a.slot j null } in
    let (a', e) =
      clear_arguments-some a1 (j + 1) xs (omega arith)
        (Stored-ahead a.slot (j + 1) j null xs (omega arith) h.1) in
    (a', after_some _ (ap free_slot h.0) (after_some _ (assign-some a j null (omega arith)) e))

-- Every simple command of a table was filled by insertions.
abbrev pub AllFilled : List SimpleCommand → Type 0
AllFilled = All (λ s. (args : List (List ℕ)) × IsFilled s args)

clear_simple-some :
    (s : SimpleCommand) (args : List (List ℕ)) → IsFilled s args → clear_simple (item s) ≡ some tt
unfolding clear_simple
clear_simple-some s args h =
    let (a, e) =
      clear_arguments-some s.arguments 0 args (omega (arith, h.room, h.spare)) h.stored in
    after_some _ (ap (λ n. clear_arguments n 0 s.arguments) h.count ∙ e) refl

clear_commands-some :
    (a : Slots SimpleCommand) (i : ℕ) (commands : List SimpleCommand)
    → i + length commands ≤ a.room
    → Stored a.slot i commands
    → AllFilled commands
    → (a' : Slots SimpleCommand) × (clear_commands (length commands) i a ≡ some a')
      × (a'.room ≡ a.room)
unfolding clear_commands
clear_commands-some a i [] le h filled = (a, refl, refl)
clear_commands-some a i (s ∷ commands) le h filled =
    let ((args, k), others) = filled in
    let a1 : Slots SimpleCommand = record a { slot = changed a.slot i null } in
    let (a', e, same) =
      clear_commands-some a1 (i + 1) commands (omega arith)
        (Stored-ahead a.slot (i + 1) i null commands (omega arith) h.1) others in
    (
      a',
      after_some _ (ap clear_simple h.0 ∙ clear_simple-some s args k)
          (after_some _ (assign-some a i null (omega arith)) e),
      same,
    )

-- The settings of a table, apart from its simple commands.
abbrev pub settings :
    Command → Option (List ℕ) × Option (List ℕ) × Option (List ℕ) × ℕ × ℕ × ℕ × ℕ × ℕ × ℕ
settings c = (
  c.out_file, c.in_file, c.err_file, c.is_background, c.is_appended, c.outfile_counter,
  c.is_cleared, c.last_pid, c.last_return,
)

-- Clearing a table whose simple commands were filled by insertions frees no pointer that was not set
-- and leaves an empty table with the settings of a new one, and the capacity that it had.
pub command_clear-IsTable :
    (c : Command) (commands : List SimpleCommand)
    → IsTable c commands
    → AllFilled commands
    → (c' : Command) × (command_clear c ≡ some c')
      × IsTable c' []
      × (settings c' ≡ settings command_create)
      × (c'.num_available_simple_commands ≡ c.num_available_simple_commands)
unfolding command_clear
command_clear-IsTable c commands h filled =
    let (a, e, same) =
      clear_commands-some c.simple_commands 0 commands (omega (arith, h.room, h.spare)) h.stored
        filled in
    (
      _,
      after_some _ (ap (λ n. clear_commands n 0 c.simple_commands) h.count ∙ e) refl,
      record {
        count = refl;
        room = same ∙ h.room;
        spare = omega arith;
        some_room = h.some_room;
        stored = tt;
      },
      refl,
      refl,
    )
