-- ===== src/DiagnosticMode.antt =====
-- internal/diagnosticmode: the temporary diagnostic recorder and the output that it collects.
pub mod Gate
pub mod Privacy
pub mod Steps
pub mod Writes
pub mod History
pub mod Recording
mod Tests
