-- ===== src/LineProbe.antt =====
-- internal/lineprobe: the quality of the line, from rounds of probes.
pub mod Aggregate
pub mod Counts
pub mod Probe
pub mod Scheduler
mod Tests
