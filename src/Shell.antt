-- ===== src/Shell.antt =====
-- The shell of lab3-src: its command table, line editor, lexer, grammar, expansions and the execution
-- of commands, and all of it in a session.
pub mod Table
pub mod Filled
pub mod Cleared
pub mod Editor
pub mod Lexer
pub mod Grammar
pub mod Expand
pub mod Execute
pub mod Session
mod Tests
