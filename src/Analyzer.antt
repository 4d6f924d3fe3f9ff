-- ===== src/Analyzer.antt =====
-- internal/analyzer
pub mod Compliance
pub mod GitHub
pub mod Analyze
