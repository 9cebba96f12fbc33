-- ===== src/Gc.antt =====
-- src/gc: the collector of reference cycles.
pub mod Heap
pub mod Flood
pub mod Phases
pub mod Generations
pub mod Safepoint
mod Tests
