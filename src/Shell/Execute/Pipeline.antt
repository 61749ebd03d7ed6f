-- ===== src/Shell/Execute/Pipeline.antt =====
-- What command_execute of lab3-src/command.c makes of the descriptors for a row of programs.
use cs.Common.{
  ℕ, suc, ◌+◌, ◌≡◌, ◌≢◌, refl, ap, ◌∙◌, Bool, true, false, List, [], ◌∷◌, ◌++◌, All, Option, none,
  some, length, codes, same_text, ◌==◌, arith,
}
use cs.Common.Slots.{Slot, item, Stored}
use mathlib.Core.List.{append_assoc}
use cs.Shell.Table.{SimpleCommand, Command}
use cs.Shell.Execute.Descriptors.{
  Mode, appends, Kernel, IsFresh, Gives, IsKernel, Opens, chosen, IsShell,
}
use cs.Shell.Execute.{
  Saved, Event, forked, Executed, redirect, open_or_dup, out_mode, last_outputs, outputs, restore,
  wait_for, start, run,
}
use cs.Shell.Execute.Rounds.{apart, redirect-at, Ready, Ready-small, Ready-Busy, Ready-pipe}
use cs.Shell.Execute.Last.{Last-IsShell, Last-restores}

-- A simple command that is no built-in one.
pub record IsProgram (s : SimpleCommand) : Type 0 where
  pub name : List ℕ
  pub stored : s.arguments.slot 0 ≡ item name
  pub no_exit : same_text name (codes "exit") ≡ false
  pub no_cd : same_text name (codes "cd") ≡ false
  pub no_setenv : same_text name (codes "setenv") ≡ false
  pub no_unsetenv : same_text name (codes "unsetenv") ≡ false

module _ (k : Kernel) (laws : IsKernel k) where
  pub open_or_dup-Gives :
      (path : Option (List ℕ)) (mode : Mode) (t : k.Table) (fd : ℕ) (f : k.File)
      → Opens k path mode
      → k.at t fd ≡ some f
      → Gives k t (chosen k path mode f) (open_or_dup k t path mode (some fd))
  open_or_dup-Gives none mode t fd f opens used = laws.dup_law t fd f used
  open_or_dup-Gives (some path) mode t fd f opens used = opens t

  -- The processes of a row of programs: each has the end of a pipe for its output that is joined with
  -- the next one's input, and the shell's errors; the last one has the last output and errors.
  abbrev pub Wired :
      (errors last_output last_errors first : k.File)
      → SimpleCommand
      → List SimpleCommand
      → List (Event k)
      → Type 0
  Wired errors last_output last_errors first s [] events =
      (t : k.Table) × (events ≡ forked t s ∷ []) × IsShell k t first last_output last_errors
  Wired errors last_output last_errors first s (s' ∷ ss) events =
      (t : k.Table) × (writer : k.File) × (reader : k.File) × (others : List (Event k)) × (events
        ≡ forked t s ∷ others)
      × k.joins writer reader
      × IsShell k t first writer errors
      × Wired errors last_output last_errors reader s' ss others

  module _ (pids : ℕ → ℕ) (chdir : List ℕ → Bool) (getenv : List ℕ → Option (List ℕ)) where
    abbrev loop :
        (count i : ℕ) → Command → Saved → Option ℕ → Slot ℕ → k.Table → List (Event k) → Executed k
    loop = run k (λ i. some (pids i)) chdir getenv

    -- A round at a program, with its outputs.
    loop-program :
        (count i : ℕ) (c : Command) (saved : Saved) (fdin : Option ℕ) (ret : Slot ℕ) (t : k.Table)
        (events : List (Event k)) (s : SimpleCommand) (fdout next : Option ℕ) (t' : k.Table)
        → c.simple_commands.slot i ≡ item s
        → IsProgram s
        → outputs k i c saved fdin (redirect k t fdin 0) ≡ some ((fdout, next), t')
        → loop (suc count) i c saved fdin ret t events
          ≡ loop count
              (i + 1)
              c
              saved
              next
              (item (pids i))
              (redirect k t' fdout 1)
              (events ++ (forked (redirect k t' fdout 1) s ∷ []))
    unfolding run start
    loop-program count i c saved fdin ret t events s fdout next t' here p e =
        rw here
          (rw p.stored (rw p.no_exit (rw e (rw p.no_cd (rw p.no_setenv (rw p.no_unsetenv refl))))))

    outputs-pipe :
        (i : ℕ) (c : Command) (saved : Saved) (fdin : Option ℕ) (t t2 : k.Table) (r w : ℕ)
        → i + 1 ≢ c.num_simple_commands
        → k.pipe t ≡ some ((r, w), t2)
        → outputs k i c saved fdin t ≡ some ((some w, some r), t2)
    unfolding outputs
    outputs-pipe i c saved fdin t t2 r w more e =
        let not_last : (i + 1 == c.num_simple_commands) ≡ false = ground arith in
        rw not_last (rw e refl)

    outputs-last :
        (i : ℕ) (c : Command) (saved : Saved) (fdin : Option ℕ) (t t2 t4 : k.Table) (e o : ℕ)
        → i + 1 ≡ c.num_simple_commands
        → open_or_dup k t c.err_file appends saved.tmperr ≡ (some e, t2)
        → open_or_dup k (redirect k t2 (some e) 2) c.out_file (out_mode k c) saved.tmpout
          ≡ (some o, t4)
        → outputs k i c saved fdin t ≡ some ((some o, fdin), t4)
    unfolding outputs last_outputs
    outputs-last i c saved fdin t t2 t4 e o last opened_err opened_out =
        let is_last : (i + 1 == c.num_simple_commands) ≡ true = ground arith in
        rw is_last (rw opened_err (rw opened_out refl))

    -- tmpout is kept when the errors are redirected.
    out_kept :
        (t0 t1 t2 : k.Table) (b e : ℕ) (fe input output errors : k.File)
        → IsShell k t0 input output errors
        → k.at t0 b ≡ none
        → IsFresh k t1 e fe t2
        → k.at t1 b ≡ some output
        → k.at (redirect k t2 (some e) 2) b ≡ some output
    out_kept t0 t1 t2 b e fe input output errors shell free fresh used =
        let b3 = Ready-small k laws t0 input output errors b shell free in
        let away = apart k laws t1 e b output fresh.0 used in
        ground (
          arith,
          redirect-at k laws t2 e 2 fe (ground (arith, fresh.1 e)) b,
          fresh.1 b,
          used,
          away,
          b3,
        )

    -- The outputs of the last simple command are open, and the errors redirected.
    pub outputs-Ready :
        (i : ℕ) (c : Command) (t0 t : k.Table) (a b d n : ℕ) (input output errors first : k.File)
        → IsShell k t0 input output errors
        → i + 1 ≡ c.num_simple_commands
        → Opens k c.err_file appends
        → Opens k c.out_file (out_mode k c)
        → Ready k laws t0 t a b d n input output errors first
        → (e : ℕ) × (o : ℕ) × (t2 : k.Table) × (t4 : k.Table) × (outputs k i c
              (record { tmpin = some a; tmpout = some b; tmperr = some d })
              (some n)
              (redirect k t (some n) 0)
            ≡ some ((some o, some n), t4))
          × IsFresh k (redirect k t (some n) 0) e (chosen k c.err_file appends errors) t2
          × IsFresh k (redirect k t2 (some e) 2) o (chosen k c.out_file (out_mode k c) output) t4
    outputs-Ready i c t0 t a b d n input output errors first shell last opens_err opens_out h =
        let saved : Saved = record { tmpin = some a; tmpout = some b; tmperr = some d } in
        let t1 = redirect k t (some n) 0 in
        let u = Ready-Busy k laws t0 t a b d n input output errors first shell h in
        let fe = chosen k c.err_file appends errors in
        let (e, t2, err, fresh_e) =
          open_or_dup-Gives c.err_file appends t1 d errors opens_err u.in_c in
        let t3 = redirect k t2 (some e) 2 in
        let kept : k.at t3 b ≡ some output =
          out_kept t0 t1 t2 b e fe input output errors shell h.free_out fresh_e u.in_b in
        let (o, t4, out, fresh_o) =
          open_or_dup-Gives c.out_file (out_mode k c) t3 b output opens_out kept in
        (e, o, t2, t4, outputs-last i c saved (some n) t1 t2 t4 e o last err out, fresh_e, fresh_o)

    -- The loop from a simple command on.
    pub loop-Wired :
        (s : SimpleCommand) (ss : List SimpleCommand) (i : ℕ) (c : Command) (t0 t : k.Table)
        (tmpin tmpout tmperr n : ℕ) (input output errors first : k.File) (ret : Slot ℕ)
        (events : List (Event k))
        → IsShell k t0 input output errors
        → c.num_simple_commands ≡ i + suc (length ss)
        → Stored c.simple_commands.slot i (s ∷ ss)
        → All IsProgram (s ∷ ss)
        → Opens k c.err_file appends
        → Opens k c.out_file (out_mode k c)
        → Ready k laws t0 t tmpin tmpout tmperr n input output errors first
        → (es : List (Event k)) × (t' : k.Table) × (loop
              (suc (length ss))
              i
              c
              (record { tmpin = some tmpin; tmpout = some tmpout; tmperr = some tmperr })
              (some n)
              ret
              t
              events
            ≡ wait_for k c (item (pids (i + length ss))) t' (events ++ es))
          × Wired errors
              (chosen k c.out_file (out_mode k c) output)
              (chosen k c.err_file appends errors)
              first
              s
              ss
              es
          × ((m : ℕ) → k.at t' m ≡ k.at t0 m)
    unfolding run
    loop-Wired s [] i c t0 t a b d n input output errors first ret events shell count stored p
          opens_err opens_out h =
        let saved : Saved = record { tmpin = some a; tmpout = some b; tmperr = some d } in
        let fe = chosen k c.err_file appends errors in
        let fo = chosen k c.out_file (out_mode k c) output in
        let (e, o, t2, t4, out, fresh_e, fresh_o) =
          outputs-Ready i c t0 t a b d n input output errors first shell (omega (arith, count))
            opens_err opens_out h in
        let t5 = redirect k t4 (some o) 1 in
        (
          forked t5 s ∷ [],
          restore k saved t5,
          loop-program 0 i c saved (some n) ret t events s (some o) (some n) t4 stored.0 p.0 out
              ∙ ap (λ q. wait_for k c (item q) (restore k saved t5) (events ++ (forked t5 s ∷ [])))
                  (ap pids (omega arith)),
          (
            t5,
            refl,
            Last-IsShell k laws t0 t a b d n input output errors first shell h t2 t4 e o fe fo
                fresh_e fresh_o,
          ),
          Last-restores k laws t0 t a b d n input output errors first shell h t2 t4 e o fe fo
              fresh_e fresh_o,
        )
    loop-Wired s (s' ∷ ss) i c t0 t a b d n input output errors first ret events shell count stored
          p opens_err opens_out h =
        let saved : Saved = record { tmpin = some a; tmpout = some b; tmperr = some d } in
        let (r, w, fr, fw, t2, e, joined, ready, wired) =
          Ready-pipe k laws t0 t a b d n input output errors first shell h in
        let t3 = redirect k t2 (some w) 1 in
        let (es, t', done, others, same) =
          loop-Wired s' ss (i + 1) c t0 t3 a b d r input output errors fr (item (pids i))
            (events ++ (forked t3 s ∷ [])) shell (omega (arith, count)) stored.1 p.1 opens_err
            opens_out ready in
        let pid : pids (i + 1 + length ss) ≡ pids (i + suc (length ss)) = ap pids (omega arith) in
        (
          forked t3 s ∷ es,
          t',
          loop-program (suc (length ss)) i c saved (some n) ret t events s (some w) (some r) t2
                stored.0 p.0
                (outputs-pipe i c saved (some n) (redirect k t (some n) 0) t2 r w
                  (omega (arith, count)) e)
              ∙ done
              ∙ ap (λ q. wait_for k c (item q) t' ((events ++ (forked t3 s ∷ [])) ++ es)) pid
              ∙ ap (λ l. wait_for k c (item (pids (i + suc (length ss)))) t' l)
                  (append_assoc events (forked t3 s ∷ []) es),
          (t3, fw, fr, es, refl, joined, wired, others),
          same,
        )
