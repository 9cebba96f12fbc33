-- ===== src/Parser.antt =====
-- src/parser: from tokens to a syntax tree.
pub mod KindTests
pub mod Syntax
pub mod Tokens
pub mod Primary
pub mod Expressions
pub mod Source
pub mod Quiet
pub mod Climb
pub mod ReadBack
pub mod Recovery
mod Tests
