-- ===== src/Vjs.antt =====
-- VejasScript, the flow language (core/src/vjs.rs).
pub mod Value
pub mod Text
pub mod Ast
pub mod Token
pub mod Symbols
pub mod Lexer
pub mod Parser
pub mod Failure
pub mod Builtin
pub mod Engine
pub mod Eval
pub mod Run
pub mod Static
pub mod Rules
pub mod Surface
