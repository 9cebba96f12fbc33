-- ===== src/Utils.antt =====
-- src/utils: helpers on texts.
pub mod Distance
pub mod Levenshtein
mod Tests
