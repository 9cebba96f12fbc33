-- ===== src/Serializer/RoundTrip.antt =====
-- Reading what was written: one lemma for each pair of functions of BytecodeSerializer.cpp.
mod Chunks
mod Functions
pub mod Files
pub use Files.*
