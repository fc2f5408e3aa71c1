-- ===== src/Analyzer.antt =====
-- src/analyzer/semantic_analyzer.cpp and include/analyzer/semantic_analyzer.h.
pub mod Table
pub mod Walk
pub mod Names
pub mod Scopes
pub mod Undefined
pub mod Silent
mod Tests
