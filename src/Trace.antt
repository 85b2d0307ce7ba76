-- ===== src/Trace.antt =====
-- internal/traceevent: the trace events and their recorder.
pub mod Event
pub mod Recorder
