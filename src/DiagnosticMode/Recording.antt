-- ===== src/DiagnosticMode/Recording.antt =====
-- internal/diagnosticmode/gate.go: the recorder of internal/traceevent/recorder.go behind the gate.
use overseas.Base.{ℕ, String, none, some, List}
use overseas.Trace.Recorder.{Files, Recorder, new_recorder, record_event, batch, close}
use overseas.DiagnosticMode.Gate.{RecorderOps}

-- The calls of the gate on a recorder; its world is that of the gate while a call runs.
abbrev pub recorder_ops :
    {W : Type 0} → ℕ → ℕ → (List ℕ → String) → Files W → RecorderOps W (Recorder W)
recorder_ops capacity max_file_bytes text_of f = record {
  now = f.now;
  open_recorder = λ w. ((none, some (new_recorder capacity max_file_bytes w)), w);
  record_event = λ e r w. let s = record_event f e (record r { world = w }) in (s, s.world);
  batch = λ after limit r. batch after limit r;
  close = λ r w. let c = close f (record r { world = w }) in (c.0, c.1.world);
  text_of = text_of;
}
