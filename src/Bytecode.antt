-- ===== src/Bytecode.antt =====
-- src/bytecode/Bytecode.h and Bytecode.cpp: constants, chunks and compiled functions.
-- A `std::string` is the list of its bytes. A `long long` and a `double` are their 64-bit patterns,
-- as numbers below 2 ^ 64. A pointer is the number of the object it points to.
pub mod CallSites
pub mod Types
pub mod Pool
pub mod OpCodes
pub mod Emit
mod Tests
