-- ===== src/Shell/Session/Tests.antt =====
-- The theorems about the shell of lab3-src at `ls -l | wc > out`, and at other lines.
use cs.Common.{
  ℕ, ◌+◌, ◌≡◌, refl, true, false, List, [], ◌∷◌, ◌++◌, none, some, codes, same_text, arith, ◌↔◌,
}
use cs.Shell.Table.{SimpleCommand, simple_command_create, command_create}
use cs.Shell.Filled.{IsTable, create-IsTable}
use cs.Shell.Lexer.Words.{IsPlainWord}
use cs.Shell.Lexer.{Outside, word_token, newline_token, pipe_token, great_token}
use cs.Shell.Grammar.{rewrites, line_start, yyparse, SimpleLine}
use cs.Shell.Expand.{has, has_wildcard, no_entries, insert_arguments}
use cs.Shell.Expand.Inserted.{IsUnexpanded}
use cs.Shell.Expand.Faults.{insert_arguments-tilde}
use cs.Shell.Grammar.Lines.{line_tokens}
use cs.Shell.Grammar.Accepted.{is_executed, yyparse-executed}
use cs.Shell.Execute.{Event, prompts}
use cs.Shell.Execute.Numbered.{file_at, kernel, kernel-IsKernel, three, out-Gives}
use cs.Shell.Session.{World, Session, parse, shell_main}
use cs.Shell.Session.Ends.{IsOver, shell_main-IsOver}
use cs.Shell.Session.Filled.{Hold}
use cs.Shell.Session.Spelled.{IsPlainLine}
use cs.Shell.Session.Runs.{LineWired, line_warning, line_ending, IsProgramName, parse-Wired}

abbrev world : List (Event kernel) → World
world events = record {
  forks = λ i. some (7 + i);
  chdir = λ d. true;
  getenv = λ v. none;
  regcomp = λ r. none;
  readdir = λ d. none;
  qsort = λ l. l;
  home = some (codes "/homes/grr");
  cwd = codes "/";
  pid = 5;
  regexec = λ t. false;
}

abbrev outside : Outside
outside = record { output = λ script. []; strcpy_back = λ string. string }

abbrev ls_wc : SimpleLine
ls_wc = record {
  first = record { word = codes "ls"; argument_list = codes "-l" ∷ [] };
  others = record { word = codes "wc"; argument_list = [] } ∷ [];
  iomodifier_list = (rewrites, codes "out") ∷ [];
  is_background = false;
}

abbrev begun : Session kernel
begun = record {
  current_command = command_create;
  current_simple_command = none;
  entries = no_entries;
  descriptors = three;
  events = prompts ∷ [];
}

ls-IsPlainWord : IsPlainWord (codes "ls")
ls-IsPlainWord = ground arith

l-IsPlainWord : IsPlainWord (codes "-l")
l-IsPlainWord = ground arith

wc-IsPlainWord : IsPlainWord (codes "wc")
wc-IsPlainWord = ground arith

out-IsPlainWord : IsPlainWord (codes "out")
out-IsPlainWord = ground arith

l-IsUnexpanded : IsUnexpanded (codes "-l")
unfolding has
l-IsUnexpanded = record { no_wildcard = refl; no_tilde = refl; no_reference = refl }

ls_wc-IsPlainLine : IsPlainLine ls_wc
ls_wc-IsPlainLine = record {
  commands = ((ls-IsPlainWord, (l-IsPlainWord, tt)), ((wc-IsPlainWord, tt), tt));
  files = (out-IsPlainWord, tt);
  unexpanded = ((l-IsUnexpanded, tt), (tt, tt));
}

ls-IsProgramName : IsProgramName (codes "ls")
unfolding same_text
ls-IsProgramName = record { no_exit = refl; no_cd = refl; no_setenv = refl; no_unsetenv = refl }

wc-IsProgramName : IsProgramName (codes "wc")
unfolding same_text
wc-IsProgramName = record { no_exit = refl; no_cd = refl; no_setenv = refl; no_unsetenv = refl }

parse-Wired_example :
    (s : SimpleCommand) × (ss : List SimpleCommand) × (σ' : Session kernel) × (es : List
      (Event kernel))
    × (parse kernel outside world
          (line_start false)
          begun
          (codes "ls -l | wc > out" ++ (10 ∷ codes "exit"))
        ≡ parse kernel outside world (line_start true) σ' (codes "exit"))
    × Hold (s ∷ ss) (ls_wc.first ∷ ls_wc.others)
    × LineWired kernel kernel-IsKernel outside world ls_wc begun (λ i. 7 + i) 0 1 2 s ss es
    × ((m : ℕ) → file_at σ'.descriptors m ≡ file_at three m)
    × IsTable σ'.current_command []
    × (σ'.events
        ≡ (prompts ∷ [])
          ++ ((line_warning kernel ls_wc command_create ++ es)
              ++ line_ending kernel ls_wc command_create 8))
parse-Wired_example =
    parse-Wired kernel kernel-IsKernel outside world ls_wc begun (λ i. 7 + i) 0 1 2 false
      (codes "exit") ls_wc-IsPlainLine (ls-IsProgramName, (wc-IsProgramName, tt)) create-IsTable
      (record { zero_in = refl; one_out = refl; two_err = refl }) refl tt tt out-Gives

shell_main-IsOver_example :
    IsOver kernel (shell_main kernel outside world three (codes "ls | | wc"))
shell_main-IsOver_example = shell_main-IsOver kernel outside world three (codes "ls | | wc")

yyparse-executed_example :
    (is_executed (
        yyparse
          (line_start false)
          (word_token (codes "ls") ∷ pipe_token ∷ great_token ∷ newline_token ∷ []))
      ≡ true)
    ↔ ((l : SimpleLine) × (word_token (codes "ls") ∷ pipe_token ∷ great_token ∷ []
          ≡ line_tokens l []))
yyparse-executed_example =
    yyparse-executed false (word_token (codes "ls") ∷ pipe_token ∷ great_token ∷ [])
      (tt, (tt, (tt, tt)))

no_wildcard : has_wildcard (codes "~grr") ≡ false
unfolding has
no_wildcard = refl

insert_arguments-tilde_example :
    insert_arguments
      (λ r. none)
      (λ d. none)
      (λ l. l)
      (some (codes "/homes/grr"))
      (λ v. none)
      (codes "/")
      5
      (λ t. false)
      0
      0
      no_entries
      simple_command_create
      (codes "~grr")
    ≡ none
insert_arguments-tilde_example =
    insert_arguments-tilde (λ r. none) (λ d. none) (λ l. l) (some (codes "/homes/grr")) (λ v. none)
      (codes "/") 5 (λ t. false) 0 0 no_entries simple_command_create (codes "grr")
      (codes "/homes/grr") no_wildcard refl (omega arith)
