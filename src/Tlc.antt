-- ===== src/Tlc.antt =====
-- The thunk compiler: src/tools/TLC and src/libs/TLCApi.
mod Tests
pub mod Summary
pub mod Callbacks
pub mod Pipeline
pub mod Dump
pub mod Snippet
pub mod Document
pub mod CodeTemplates
pub mod DefaultBuilder
