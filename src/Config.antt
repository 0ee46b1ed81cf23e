-- ===== src/Config.antt =====
-- `lore::ConfigFile` of include/lorelei/Support/ConfigFile.h and src/libs/Support/ConfigFile.cpp.
pub mod Line
pub mod Section
pub mod File
pub mod Tests
