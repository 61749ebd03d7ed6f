-- ===== src/Shell/Expand/Inserted.antt =====
-- The arguments that insert_arguments of lab3-src/shell.y leaves as they are.
use cs.Common.{◌>>=◌, after_some, ℕ, ◌≡◌, refl, ◌∙◌, Bool, false, List, ◌∷◌, [], ◌++◌, Option, some}
use cs.Shell.Table.{SimpleCommand, simple_command_insert_argument}
use cs.Shell.Filled.{IsFilled, simple_command_insert_argument-IsFilled}
use cs.Shell.Expand.{
  has, has_wildcard, starts_with_tilde, Entries, with_entries, single_argument, insert_arguments,
}

-- An argument without `*`, `?` and `$` that does not begin with `~`.
pub record IsUnexpanded (arg : List ℕ) : Type 0 where
  pub no_wildcard : has_wildcard arg ≡ false
  pub no_tilde : starts_with_tilde arg ≡ false
  pub no_reference : has 36 arg ≡ false

module _ (regcomp : List ℕ → Option (List ℕ → Bool)) (readdir : List ℕ → Option (List (List ℕ)))
    (qsort : List (List ℕ) → List (List ℕ)) (home : Option (List ℕ))
    (getenv : List ℕ → Option (List ℕ)) (cwd : List ℕ) (pid : ℕ) (regexec : List ℕ → Bool)
    (last_pid last_return : ℕ) where
  insert_arguments-single :
      (e : Entries) (c : SimpleCommand) (arg : List ℕ)
      → IsUnexpanded arg
      → insert_arguments regcomp readdir qsort home getenv cwd pid regexec last_pid last_return e c
          arg
        ≡ (simple_command_insert_argument c arg >>= with_entries e)
  unfolding insert_arguments single_argument
  insert_arguments-single e c arg h = rw h.no_wildcard (rw h.no_tilde (rw h.no_reference refl))

  -- Such an argument is added at the end of the simple command.
  pub insert_arguments-IsFilled :
      (e : Entries) (c : SimpleCommand) (args : List (List ℕ)) (arg : List ℕ)
      → IsFilled c args
      → IsUnexpanded arg
      → (c' : SimpleCommand) × (insert_arguments regcomp readdir qsort home getenv cwd pid regexec
            last_pid last_return e c arg
          ≡ some (e, c'))
        × IsFilled c' (args ++ (arg ∷ []))
  insert_arguments-IsFilled e c args arg filled h =
      let (c', done, more, _) = simple_command_insert_argument-IsFilled c args arg filled in
      (c', insert_arguments-single e c arg h ∙ after_some _ done refl, more)
