-- ===== src/Shell/Session/Line.antt =====
-- What the actions of a plain line leave in a session of the shell of lab3-src.
use cs.Common.{
  ℕ, ◌+◌, ◌≤◌, ◌≡◌, refl, ap, ◌∙◌, true, false, Bool, List, [], ◌∷◌, ◌++◌, Option, All, length,
  length-append, if◌then◌else◌, arith,
}
use cs.Shell.Table.{SimpleCommand, Command}
use cs.Shell.Filled.{IsTable}
use cs.Shell.Lexer.{Outside, Token, newline_token}
use cs.Shell.Lexer.Tokens.{IsSpelled, written, behind, spell}
use cs.Shell.Grammar.{Modifier, Action, executes, ParserState, line_start, yyparse, SimpleLine}
use cs.Shell.Grammar.Lines.{
  pipe_actions, modifier_actions, background_actions, line_actions, yyparse-line, line-append,
}
use cs.Shell.Execute.Descriptors.{Kernel}
use cs.Shell.Execute.{Event}
use cs.Shell.Session.{World, Session, modify, go_on, perform, perform_all, parse}
use cs.Shell.Session.Lines.{rounds, go_on-same, parse_input-written}
use cs.Shell.Session.Ends.{parse_input-same}
use cs.Shell.Session.Prepared.{
  named_files, simple_part, IsTable-same, modify_all, IsModified, modify_all-IsModified, last_word,
  any_modifier, names_output, names_errors, names_input, appends, count_modifiers,
}
use cs.Shell.Session.Filled.{AllUnexpanded, Hold, command-IsTable, pipes-IsTable}
use cs.Shell.Session.Spelled.{IsPlainLine, line_text, line-IsSpelled}

abbrev with_background : Bool → Command → Command
with_background true c = record c { is_background = 1 }
with_background false c = c

-- What a line leaves of the table's settings.
pub record IsPrepared (l : SimpleLine) (c c' : Command) : Type 0 where
  pub output : c'.out_file ≡ last_word names_output l.iomodifier_list c.out_file
  pub input : c'.in_file ≡ last_word names_input l.iomodifier_list c.in_file
  pub errors : c'.err_file ≡ last_word names_errors l.iomodifier_list c.err_file
  pub appended :
      c'.is_appended ≡ (if any_modifier appends l.iomodifier_list then 1 else c.is_appended)
  pub outputs :
      c'.outfile_counter ≡ c.outfile_counter + count_modifiers names_output l.iomodifier_list
  pub background : c'.is_background ≡ (if l.is_background then 1 else c.is_background)

-- All of the settings but the background flag.
abbrev Settings : Type 0
Settings = Option (List ℕ) × Option (List ℕ) × Option (List ℕ) × ℕ × ℕ

abbrev Files : Type 0
Files = Option (List ℕ) × Option (List ℕ) × Option (List ℕ) × ℕ × ℕ × ℕ × ℕ × ℕ

abbrev other_settings : Command → Settings
other_settings c = (c.out_file, c.in_file, c.err_file, c.is_appended, c.outfile_counter)

background-kept :
    (b : Bool) (c : Command)
    → (other_settings (with_background b c) ≡ other_settings c)
      × ((with_background b c).is_background ≡ (if b then 1 else c.is_background))
background-kept true c = (refl, refl)
background-kept false c = (refl, refl)

background-IsPrepared :
    (l : SimpleLine) (c c1 c2 : Command)
    → named_files c1 ≡ named_files c
    → IsModified l.iomodifier_list c1 c2
    → IsPrepared l c (with_background l.is_background c2)
background-IsPrepared l c c1 c2 same m =
    let (kept, background) = background-kept l.is_background c2 in
    record {
      output =
          ap (λ (s : Settings). s.0) kept
          ∙ m.output
          ∙ ap (λ (s : Files). last_word names_output l.iomodifier_list s.0) same;
      input =
          ap (λ (s : Settings). s.1) kept
          ∙ m.input
          ∙ ap (λ (s : Files). last_word names_input l.iomodifier_list s.1) same;
      errors =
          ap (λ (s : Settings). s.2) kept
          ∙ m.errors
          ∙ ap (λ (s : Files). last_word names_errors l.iomodifier_list s.2) same;
      appended =
          ap (λ (s : Settings). s.3) kept
          ∙ m.appended
          ∙ ap (λ (s : Files). if any_modifier appends l.iomodifier_list then 1 else s.4) same;
      outputs =
          ap (λ (s : Settings). s.4) kept
          ∙ m.outputs
          ∙ ap (λ (s : Files). s.5 + count_modifiers names_output l.iomodifier_list) same;
      background =
          background
          ∙ ap (λ n. if l.is_background then 1 else n)
              (m.background ∙ ap (λ (s : Files). s.3) same);
    }

rounds-≤ : (ts : List Token) (n : ℕ) → n ≤ rounds ts n
rounds-≤ [] n = omega arith
rounds-≤ (t ∷ ts) n = omega (arith, rounds-≤ ts n)

behind-≤ : (ts : List Token) (rest : List ℕ) → length rest ≤ length (behind ts rest)
behind-≤ [] rest = omega arith
behind-≤ (t ∷ ts) rest = ground (arith, behind-≤ ts rest, length-append (spell t) (behind ts rest))

module _ (k : Kernel) (outside : Outside) (world : List (Event k) → World) where
  parse-written :
      (t : Token) (ts : List Token) (s : ParserState) (σ : Session k) (rest : List ℕ)
      → All IsSpelled (t ∷ ts)
      → parse k outside world s σ (written (t ∷ ts) rest)
        ≡ go_on k
            (perform_all k outside world (yyparse s ((t ∷ ts) ++ (newline_token ∷ []))) σ)
            (λ σ. parse k outside world (line_start true) σ rest)
  parse-written t ts s σ rest h =
      let input = written (t ∷ ts) rest in
      let n = length input + 1 in
      let shorter : length rest ≤ length input =
        omega (arith, behind-≤ ts rest, length-append (spell t) (behind ts rest)) in
      parse_input-same k outside world n (rounds (t ∷ ts) n) s σ input (omega arith)
        (omega (arith, rounds-≤ (t ∷ ts) n))
      ∙ parse_input-written k outside world t ts n s σ rest h
      ∙ go_on-same k (perform_all k outside world (yyparse s ((t ∷ ts) ++ (newline_token ∷ []))) σ)
          _ _
          (λ σ.
            parse_input-same k outside world n (length rest + 1) (line_start true) σ rest
              (omega arith) (omega arith))

  -- The bytes of a line lead to its actions.
  pub parse-line :
      (l : SimpleLine) (b : Bool) (σ : Session k) (rest : List ℕ)
      → IsPlainLine l
      → parse k outside world (line_start b) σ (line_text l rest)
        ≡ go_on k
            (perform_all k outside world (line_actions l []) σ)
            (λ σ. parse k outside world (line_start true) σ rest)
  unfolding yyparse
  parse-line l b σ rest h =
      parse-written _ _ (line_start b) σ rest (line-IsSpelled l h)
      ∙ ap
          (λ actions.
            go_on k (perform_all k outside world actions σ)
              (λ σ. parse k outside world (line_start true) σ rest))
          (ap (yyparse (line_start b)) (line-append l (newline_token ∷ [])) ∙ yyparse-line b l [])

  modifiers-perform :
      (ms : List (Modifier × List ℕ)) (actions : List Action) (σ : Session k)
      → perform_all k outside world (modifier_actions ms actions) σ
        ≡ perform_all k outside world actions
            (record σ { current_command = modify_all ms σ.current_command })
  unfolding perform perform_all modify_all
  modifiers-perform [] actions σ = refl
  modifiers-perform ((m, w) ∷ ms) actions σ =
      modifiers-perform ms actions (record σ { current_command = modify m w σ.current_command })

  background-perform :
      (b : Bool) (actions : List Action) (σ : Session k)
      → perform_all k outside world (background_actions b actions) σ
        ≡ perform_all k outside world actions
            (record σ { current_command = with_background b σ.current_command })
  unfolding perform perform_all
  background-perform true actions σ = refl
  background-perform false actions σ = refl

  background-IsTable : (b : Bool) (c : Command) → simple_part (with_background b c) ≡ simple_part c
  background-IsTable true c = refl
  background-IsTable false c = refl

  -- The actions of a line prepare the table and execute it.
  pub line-prepares :
      (l : SimpleLine) (σ : Session k)
      → AllUnexpanded (l.first ∷ l.others)
      → IsTable σ.current_command []
      → (s : SimpleCommand) × (ss : List SimpleCommand) × (σ' : Session k) × (perform_all k outside
            world
            (line_actions l [])
            σ
          ≡ perform_all k outside world (executes ∷ []) σ')
        × Hold (s ∷ ss) (l.first ∷ l.others)
        × IsTable σ'.current_command (s ∷ ss)
        × IsPrepared l σ.current_command σ'.current_command
        × (σ'.descriptors ≡ σ.descriptors)
        × (σ'.events ≡ σ.events)
  line-prepares l σ plain h =
      let end : List Action = background_actions l.is_background (executes ∷ []) in
      let files : List Action = modifier_actions l.iomodifier_list end in
      let (s, σ1, e1, filled, h1, a1) =
        command-IsTable k outside world l.first (pipe_actions l.others files) σ [] plain.0 h in
      let (ss, σ2, e2, hold, h2, a2) =
        pipes-IsTable k outside world l.others files σ1 (s ∷ []) plain.1 h1 in
      let c3 = modify_all l.iomodifier_list σ2.current_command in
      let m = modify_all-IsModified l.iomodifier_list σ2.current_command in
      let σ3 : Session k = record σ2 { current_command = c3 } in
      (
        s,
        ss,
        record σ3 { current_command = with_background l.is_background c3 },
        e1
            ∙ e2
            ∙ modifiers-perform l.iomodifier_list end σ2
            ∙ background-perform l.is_background (executes ∷ []) σ3,
        (filled, hold),
        IsTable-same σ2.current_command (with_background l.is_background c3) (s ∷ ss)
            (background-IsTable l.is_background c3 ∙ m.simple) h2,
        background-IsPrepared l σ.current_command σ2.current_command c3 (a2.files ∙ a1.files) m,
        a2.same_descriptors ∙ a1.same_descriptors,
        a2.same_events ∙ a1.same_events,
      )
