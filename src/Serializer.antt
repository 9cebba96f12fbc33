-- ===== src/Serializer.antt =====
-- src/bytecode/serializer/BytecodeSerializer.cpp: the .ezc format (EZC3). A stream is the list of
-- its bytes; a write appends. Words are little-endian, as on the targets that the program is built
-- for. An exception is an error value.
pub mod Reader
pub mod Write
pub mod Read
pub mod Reads
pub mod Writable
pub mod RoundTrip
pub mod Stable
pub mod Gives
mod Tests
