-- ===== src/Diagnostics.antt =====
-- compiler/crates/tyra-diagnostics/src: spans, source files, diagnostics and reports.
pub mod Span
pub mod Source
pub mod Report
pub mod SourceMap
