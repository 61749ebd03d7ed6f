-- ===== src/Shell/Editor/Tests.antt =====
-- The theorems about lab3-src/read-line.c at an editor that has just begun.
use cs.Common.{pos, ◌≡◌, List, [], ◌∷◌, ◌++◌, codes, length, ◌≤◌, ◌<◌, ℕ, inl, refl, arith}
use cs.Shell.Editor.{Editor, read_line}
use cs.Shell.Editor.Edits.{returns, overruns, result, edits, kind}
use cs.Shell.Editor.Typed.{read_line-edits}
use cs.Shell.Editor.Returned.{read_line-characters, read_line-overruns}

abbrev begun : Editor
begun = record { line_buffer = λ k. 0; line_length = pos 0; history_index = 0; written = [] }

-- "ls", the up arrow twice, a backspace, "f" and Enter; "pwd" is left.
abbrev keys : List ℕ
keys =
    codes "ls" ++ (27 ∷ codes "[A" ++ (27 ∷ codes "[A" ++ (127 ∷ codes "f" ++ (10 ∷ codes "pwd"))))

read_line-edits_example :
    result (read_line begun keys) ≡ returns (codes "ps -f" ++ (10 ∷ [])) 2 (codes "pwd")
unfolding edits kind
read_line-edits_example = read_line-edits begun keys (omega arith)

read_line-characters_example :
    (result (read_line begun (codes "ls" ++ (10 ∷ []))) ≡ returns (codes "ls" ++ (10 ∷ [])) 0 [])
    × ((c : ℕ)
        → (32 ≤ c) × (c < 127)
        → length (codes "ls") ≡ 2046
        → result (read_line begun (codes "ls" ++ (c ∷ [])))
          ≡ returns (codes "ls" ++ (10 ∷ [])) 0 [])
read_line-characters_example =
    read_line-characters begun (codes "ls") [] (omega arith)
      ((omega arith, omega arith), ((omega arith, omega arith), tt)) (omega arith)

read_line-overruns_example : result (read_line begun (8 ∷ 8 ∷ 10 ∷ [])) ≡ overruns
read_line-overruns_example = read_line-overruns begun 1 10 [] (omega arith) (inl refl)
