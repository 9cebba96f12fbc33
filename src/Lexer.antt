-- ===== src/Lexer.antt =====
-- src/lexer: the tokens of a source text. The state keeps the bytes from `start` to `current` and
-- the bytes from `current` on, in place of the text and two indices.
pub mod Kinds
pub mod Keywords
pub mod State
pub mod Comments
pub mod Strings
pub mod Numbers
pub mod Templates
pub mod Newline
pub mod Scan
pub mod Progress
pub mod RawStrings
pub mod TemplateErrors
pub mod QuotedStrings
mod Tests
