-- ===== src/Compiler.antt =====
-- The compiler's bookkeeping of variables (src/compiler).
pub mod State
pub mod Scopes
pub mod Upvalues
pub mod Code
pub mod Globals
mod Tests
