-- ===== src/Shell/Expand/Faults.antt =====
-- The arguments at which the expansions of lab3-src/shell.y write or read where they must not.
use cs.Common.{
  ◌>>=◌, ℕ, suc, ◌+◌, ◌<◌, ◌≡◌, refl, Bool, true, false, Bool-cases, inl, inr, List, [], ◌∷◌,
  Option, none, some, length, codes, same_text, ltb, ◌==◌, arith,
}
use cs.Server.Buffer.{Buffer, append}
use cs.Shell.Table.{SimpleCommand}
use cs.Shell.Expand.{
  has, has_wildcard, Entries, split_suffix, expand_wildcards, tilde_expansion, single_argument,
  insert_arguments,
}

module _ (regcomp : List ℕ → Option (List ℕ → Bool)) (readdir : List ℕ → Option (List (List ℕ)))
    (qsort : List (List ℕ) → List (List ℕ)) (home : Option (List ℕ))
    (getenv : List ℕ → Option (List ℕ)) (cwd : List ℕ) (pid : ℕ) (regexec : List ℕ → Bool) where
  own-none :
      (arg dir : List ℕ)
      → home ≡ some dir
      → length arg < length dir
      → (home >>= λ new_dir.
          append (record { text = []; capacity = length arg + 1 }) new_dir >>= λ b. some b.text)
        ≡ none
  unfolding append
  own-none arg dir h longer =
      let full : ltb (0 + length dir) (length arg + 1) ≡ false = ground arith in
      rw h (rw (full, append) refl)

  other-none :
      (c : ℕ) (name : List ℕ) (f : Buffer → Option (List ℕ))
      → (append (record { text = codes "/homes/"; capacity = 8 }) (c ∷ name) >>= f) ≡ none
  unfolding append
  other-none c name f =
      let full : ltb (7 + length (c ∷ name)) 8 ≡ false = ground arith in rw full refl

  -- The text of an argument behind its tilde, or the home directory, where the name is empty.
  tilde_expansion-none :
      (name dir : List ℕ)
      → home ≡ some dir
      → suc (length name) < length dir
      → tilde_expansion regcomp readdir qsort home getenv cwd pid regexec (126 ∷ name) ≡ none
  unfolding tilde_expansion same_text
  tilde_expansion-none [] dir h longer = own-none (126 ∷ []) dir h longer
  tilde_expansion-none (c ∷ name) dir h longer =
      elim (Bool-cases (same_text (126 ∷ c ∷ name) (codes "~/"))) [
        | inl e ↦ rw e (own-none (126 ∷ c ∷ name) dir h longer)
        | inr e ↦ rw e (other-none c name _)
      ]

  -- An argument with a tilde in front and no wildcard overruns a buffer, where the home directory is
  -- longer than the argument.
  pub insert_arguments-tilde :
      (last_pid last_return : ℕ) (e : Entries) (c : SimpleCommand) (name dir : List ℕ)
      → has_wildcard (126 ∷ name) ≡ false
      → home ≡ some dir
      → suc (length name) < length dir
      → insert_arguments regcomp readdir qsort home getenv cwd pid regexec last_pid last_return e c
          (126 ∷ name)
        ≡ none
  unfolding insert_arguments single_argument
  insert_arguments-tilde last_pid last_return e c name dir plain h longer =
      rw plain (rw (tilde_expansion-none name dir h longer) refl)

  -- A pattern with a slash behind its first byte.
  expand_wildcards-none :
      (e : Entries) (c : ℕ) (suffix : List ℕ)
      → has 47 suffix ≡ true
      → expand_wildcards regcomp readdir qsort home getenv cwd pid regexec e [] (c ∷ suffix) ≡ none
  unfolding expand_wildcards split_suffix has
  expand_wildcards-none e c suffix h = elim (Bool-cases (c == 47)) [
    | inl slash ↦ rw slash (rw h refl)
    | inr other ↦ rw other (rw h refl)
  ]

  -- The bytes of a component in front of a slash are read without a null behind them.
  pub insert_arguments-slash :
      (last_pid last_return : ℕ) (e : Entries) (s : SimpleCommand) (c : ℕ) (suffix : List ℕ)
      → has_wildcard (c ∷ suffix) ≡ true
      → has 47 suffix ≡ true
      → insert_arguments regcomp readdir qsort home getenv cwd pid regexec last_pid last_return e s
          (c ∷ suffix)
        ≡ none
  unfolding insert_arguments
  insert_arguments-slash last_pid last_return e s c suffix wild h =
      rw wild (rw (expand_wildcards-none e c suffix h) refl)
