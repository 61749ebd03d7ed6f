-- ===== src/Shell/Execute/Descriptors.antt =====
-- The descriptors of a process, as the kernel keeps them for lab3-src/command.c, and what the manual
-- says of the calls on them.
use cs.Common.{ℕ, List, Option, none, some, ◌≡◌, ◌≢◌, ◌==◌, if◌then◌else◌}

-- How a file is opened: for reading; or for writing, at its end or as an empty file.
pub data Mode : Type 0 where
  reads : Mode
  appends : Mode
  truncates : Mode

pub record Kernel : Type 1 where
  pub Table : Type 0
  pub File : Type 0
  -- The open file that a descriptor stands for.
  pub at : Table → ℕ → Option File
  pub dup : Table → ℕ → Option ℕ × Table
  pub dup2 : Table → ℕ → ℕ → Table
  pub close : Table → ℕ → Table
  pub open_file : Table → List ℕ → Mode → Option ℕ × Table
  pub pipe : Table → Option ((ℕ × ℕ) × Table)
  -- The file that a path names under a mode, and the two ends of one pipe.
  pub file : List ℕ → Mode → File
  pub joins : (writer reader : File) → Type 0

module _ (k : Kernel) where
  -- A descriptor that was not in use stands for a file now, and no other one has changed.
  abbrev pub IsFresh : k.Table → ℕ → k.File → k.Table → Type 0
  IsFresh t n f t' =
      (k.at t n ≡ none) × ((m : ℕ) → k.at t' m ≡ (if m == n then some f else k.at t m))

  -- A call returned a descriptor for a file.
  abbrev pub Gives : k.Table → k.File → Option ℕ × k.Table → Type 0
  Gives t f r = (n : ℕ) × (t' : k.Table) × (r ≡ (some n, t')) × IsFresh t n f t'

  -- What the manual says of the calls that succeed.
  pub record IsKernel : Type 0 where
    pub dup_law : (t : k.Table) (fd : ℕ) (f : k.File) → k.at t fd ≡ some f → Gives t f (k.dup t fd)
    pub dup2_law :
        (t : k.Table) (fd n : ℕ) (f : k.File)
        → k.at t fd ≡ some f
        → (m : ℕ) → k.at (k.dup2 t fd n) m ≡ (if m == n then some f else k.at t m)
    pub close_law :
        (t : k.Table) (fd m : ℕ) → k.at (k.close t fd) m ≡ (if m == fd then none else k.at t m)
    pub pipe_law :
        (t : k.Table)
        → (reader : ℕ) × (writer : ℕ) × (r : k.File) × (w : k.File) × (t' : k.Table) × (k.pipe t
            ≡ some ((reader, writer), t'))
          × k.joins w r
          × (k.at t reader ≡ none)
          × (k.at t writer ≡ none)
          × (reader ≢ writer)
          × ((m : ℕ)
              → k.at t' m
                ≡ (if m == reader then some r else if m == writer then some w else k.at t m))

  -- The shell's own descriptors, and the files that they stand for.
  pub record IsShell (t : k.Table) (input output errors : k.File) : Type 0 where
    pub zero_in : k.at t 0 ≡ some input
    pub one_out : k.at t 1 ≡ some output
    pub two_err : k.at t 2 ≡ some errors

  -- A named file can be opened, where one is named.
  abbrev pub Opens : Option (List ℕ) → Mode → Type 0
  Opens none mode = Unit
  Opens (some path) mode = (t : k.Table) → Gives t (k.file path mode) (k.open_file t path mode)

  -- The file that takes the place of one of the shell's.
  abbrev pub chosen : Option (List ℕ) → Mode → k.File → k.File
  chosen none mode f = f
  chosen (some path) mode f = k.file path mode
