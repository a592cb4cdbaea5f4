-- ===== src/Control.antt =====
-- internal/extensions/procedures/control: the procedural interpreter of T-SQL batches.
pub mod Lex
pub mod Text
pub mod Syntax
pub mod Parse
pub mod Parser
pub mod Cell
pub mod State
pub mod Waitfor
pub mod Eval
pub mod Cases
pub mod Exec
pub mod Detect
mod Tests
