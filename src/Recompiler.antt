-- ===== src/Recompiler.antt =====
-- `Recompiler::Analyse` of `XenonRecomp/recompiler.cpp`: its children model its parts.
pub mod Helpers
pub mod Entries
pub mod Extend
pub mod Sections
pub mod Analyse
