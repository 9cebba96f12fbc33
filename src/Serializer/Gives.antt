-- ===== src/Serializer/Gives.antt =====
-- Postconditions of readers: what holds of every value that a reader gives on a stream of bytes.
pub mod Info
pub mod Files
pub mod Rules
