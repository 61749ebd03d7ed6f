-- ===== src/Shell/Grammar.antt =====
-- The grammar of lab3-src/shell.y. Its lines are data, and the parser that bison makes of it is a state
-- for each place in a line: a production is reduced, and its action taken, as soon as no token can put
-- it off.
pub mod Lines
pub mod Accepted
use cs.Common.{ℕ, Bool, true, false, List, [], ◌∷◌, ◌++◌}
use cs.Shell.Lexer.{
  Token, word_token, newline_token, great_token, greatgreat_token, ampersand_token, greatamp_token,
  greatgreatamp_token, less_token, pipe_token, redir_token,
}

-- The productions of iomodifier_opt, by their first token.
pub data Modifier : Type 0 where
  rewrites appends_to errors_to appends_errors_to takes_from redirects_errors : Modifier

-- The actions, and the message of a syntax error.
pub data Action : Type 0 where
  command_word : List ℕ → Action
  argument : List ℕ → Action
  command_and_args : Action
  iomodifier_opt : Modifier → List ℕ → Action
  background_opt : Action
  executes : Action
  clears : Action
  recovers : Action
  yyerror : Action

-- Where the parser is: at the beginning of a line, where EOF is an error if it is the first one, behind
-- a word of a command, a PIPE, the first token of a modifier, a whole one, or AMPERSAND; or it looks for
-- the NEWLINE behind an error.
pub data ParserState : Type 0 where
  line_start : (some_line : Bool) → ParserState
  in_command : ParserState
  after_pipe : ParserState
  modifying : Modifier → ParserState
  in_modifiers : ParserState
  after_ampersand : ParserState
  skipping : ParserState

-- A syntax error at a token.
abbrev pub rejects : Token → List Action × ParserState
rejects newline_token = (yyerror ∷ recovers ∷ [], line_start true)
rejects _ = (yyerror ∷ [], skipping)

-- A token behind iomodifier_list.
unfoldable pub behind_modifiers : Token → List Action × ParserState
behind_modifiers great_token = ([], modifying rewrites)
behind_modifiers greatgreat_token = ([], modifying appends_to)
behind_modifiers greatamp_token = ([], modifying errors_to)
behind_modifiers greatgreatamp_token = ([], modifying appends_errors_to)
behind_modifiers less_token = ([], modifying takes_from)
behind_modifiers redir_token = ([], modifying redirects_errors)
behind_modifiers ampersand_token = (background_opt ∷ [], after_ampersand)
behind_modifiers newline_token = (executes ∷ [], line_start true)
behind_modifiers t = rejects t

-- A token behind pipe_list, which a PIPE goes on with.
abbrev pub behind_pipe_list : Token → List Action × ParserState
behind_pipe_list pipe_token = ([], after_pipe)
behind_pipe_list t = behind_modifiers t

abbrev pub reduced : List Action × ParserState → List Action × ParserState
reduced (actions, s) = (command_and_args ∷ actions, s)

unfoldable pub shift : ParserState → Token → List Action × ParserState
unfolding behind_modifiers
shift (line_start b) (word_token w) = (command_word w ∷ [], in_command)
shift (line_start b) newline_token = (clears ∷ [], line_start true)
shift (line_start b) t = rejects t
shift in_command (word_token w) = (argument w ∷ [], in_command)
shift in_command t = reduced (behind_pipe_list t)
shift after_pipe (word_token w) = (command_word w ∷ [], in_command)
shift after_pipe t = rejects t
shift (modifying m) (word_token w) = (iomodifier_opt m w ∷ [], in_modifiers)
shift (modifying m) t = rejects t
shift in_modifiers t = behind_modifiers t
shift after_ampersand newline_token = (executes ∷ [], line_start true)
shift after_ampersand t = rejects t
shift skipping newline_token = (recovers ∷ [], line_start true)
shift skipping t = ([], skipping)

-- At EOF nothing can be skipped for, and the parser gives up.
abbrev pub at_eof : ParserState → List Action
at_eof (line_start true) = []
at_eof in_command = command_and_args ∷ yyerror ∷ []
at_eof skipping = []
at_eof _ = yyerror ∷ []

-- The actions that the tokens lead to.
unfoldable pub yyparse : ParserState → List Token → List Action
yyparse s [] = at_eof s
yyparse s (t ∷ ts) = let (actions, s) = shift s t in actions ++ yyparse s ts

-- A line of the grammar.
pub record CommandAndArgs : Type 0 where
  pub word : List ℕ
  pub argument_list : List (List ℕ)

pub record SimpleLine : Type 0 where
  pub first : CommandAndArgs
  pub others : List CommandAndArgs
  pub iomodifier_list : List (Modifier × List ℕ)
  pub is_background : Bool
