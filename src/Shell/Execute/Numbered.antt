-- ===== src/Shell/Execute/Numbered.antt =====
-- A kernel for lab3-src/command.c that hands out numbers above all those in use.
use cs.Common.{
  ℕ, suc, ◌+◌, ◌≡◌, refl, Option, none, some, length, codes, ltb, ◌==◌, if◌then◌else◌, arith,
}
use cs.Shell.Execute.Descriptors.{truncates, Kernel, IsKernel, Gives}

pub record Numbered : Type 0 where
  pub bound : ℕ
  pub slot : ℕ → Option ℕ

abbrev pub file_at : Numbered → ℕ → Option ℕ
file_at t m = if ltb m t.bound then t.slot m else none

abbrev pub set : Numbered → ℕ → Option ℕ → Numbered
set t n x = record { bound = suc (n + t.bound); slot = λ m. if m == n then x else file_at t m }

set-file_at :
    (t : Numbered) (n : ℕ) (x : Option ℕ) (m : ℕ)
    → file_at (set t n x) m ≡ (if m == n then x else file_at t m)
set-file_at t n x m = ground arith

abbrev pub kernel : Kernel
kernel = record {
  Table = Numbered;
  File = ℕ;
  at = file_at;
  dup = λ t fd. (some t.bound, set t t.bound (file_at t fd));
  dup2 = λ t fd n. set t n (file_at t fd);
  close = λ t fd. set t fd none;
  open_file = λ t path mode. (some t.bound, set t t.bound (some (100 + length path)));
  pipe = λ t. some (
    (t.bound, t.bound + 1),
    set (set t t.bound (some (200 + t.bound))) (t.bound + 1) (some (201 + t.bound)),
  );
  file = λ path mode. 100 + length path;
  joins = λ writer reader. writer ≡ reader + 1;
}

fresh : (t : Numbered) (x : Option ℕ) → file_at t t.bound ≡ none
fresh t x = ground arith

pub kernel-IsKernel : IsKernel kernel
kernel-IsKernel = record {
  dup_law = λ t fd f used. (
    t.bound,
    set t t.bound (file_at t fd),
    refl,
    (ground arith, λ m. ground (arith, set-file_at t t.bound (file_at t fd) m, used)),
  );
  dup2_law = λ t fd n f used m. ground (arith, set-file_at t n (file_at t fd) m, used);
  close_law = λ t fd m. set-file_at t fd none m;
  pipe_law = λ t. (
    t.bound,
    t.bound + 1,
    200 + t.bound,
    201 + t.bound,
    _,
    refl,
    omega arith,
    ground arith,
    ground arith,
    omega arith,
    λ m. ground arith,
  );
}

abbrev pub three : Numbered
three = record { bound = 3; slot = λ m. some m }

pub out-Gives : (t : Numbered) → Gives kernel t 103 (kernel.open_file t (codes "out") truncates)
out-Gives t = (
  t.bound,
  set t t.bound (some 103),
  refl,
  (ground arith, λ m. set-file_at t t.bound (some 103) m),
)
