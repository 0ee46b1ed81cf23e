-- ===== src/Str.antt =====
-- The namespace `lore::str` of include/lorelei/Support/StringExtras.h and
-- src/libs/Support/StringExtras.cpp.
pub mod Split
pub mod Trim
pub mod Varexp
pub mod Format
pub mod Tests
