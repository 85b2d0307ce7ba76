-- ===== src/DiagnosticMode/Tests.antt =====
-- internal/diagnosticmode/gate.go on a recorder that keeps a list of event texts.
use overseas.Base.{ℕ, ◌+◌, String, none, some, List, [], ◌∷◌, ◌≡◌, refl}
use overseas.Trace.Recorder.{empty_batch}
use overseas.DiagnosticMode.Gate.{RecorderOps, Gate, new_gate, enable, write_gated, minutes}
use overseas.DiagnosticMode.Steps.{IsPrivate}
use overseas.DiagnosticMode.History.{start, then_step, enables, writes, GateReach-IsPrivate}

-- A world is the present time, a recorder the texts that it got.
abbrev demo_ops : RecorderOps ℕ (List String)
demo_ops = record {
  now = λ w. (w, w + 1);
  open_recorder = λ w. ((none, some []), w);
  record_event = λ e r w. (e.detail ∷ r, w);
  batch = λ after limit r. empty_batch after;
  close = λ r w. (none, w);
  text_of = λ bytes. "line";
}

abbrev enabled_gate : Gate ℕ (List String)
enabled_gate = (enable demo_ops 0 (minutes 15) (new_gate 0)).1

abbrev written_gate : Gate ℕ (List String)
written_gate = write_gated demo_ops none (7 ∷ 10 ∷ 8 ∷ []) enabled_gate

written_pending : written_gate.output.pending ≡ 8 ∷ []
unfolding overseas.DiagnosticMode.Gate.new_gate overseas.DiagnosticMode.Gate.enable
    overseas.DiagnosticMode.Gate.enable_checked overseas.DiagnosticMode.Gate.check_deadline
    overseas.DiagnosticMode.Gate.arm overseas.DiagnosticMode.Gate.arm_opened
    overseas.DiagnosticMode.Gate.write_checked overseas.DiagnosticMode.Gate.check_now
    overseas.DiagnosticMode.Gate.write_bytes overseas.DiagnosticMode.Gate.add_byte
    overseas.DiagnosticMode.Gate.end_line overseas.DiagnosticMode.Gate.record_open
    overseas.DiagnosticMode.Gate.put_output overseas.DiagnosticMode.Gate.name_of
written_pending = refl

written_recorder : written_gate.recorder ≡ some ("line" ∷ [])
unfolding overseas.DiagnosticMode.Gate.new_gate overseas.DiagnosticMode.Gate.enable
    overseas.DiagnosticMode.Gate.enable_checked overseas.DiagnosticMode.Gate.check_deadline
    overseas.DiagnosticMode.Gate.arm overseas.DiagnosticMode.Gate.arm_opened
    overseas.DiagnosticMode.Gate.write_checked overseas.DiagnosticMode.Gate.check_now
    overseas.DiagnosticMode.Gate.write_bytes overseas.DiagnosticMode.Gate.add_byte
    overseas.DiagnosticMode.Gate.end_line overseas.DiagnosticMode.Gate.record_open
    overseas.DiagnosticMode.Gate.put_output overseas.DiagnosticMode.Gate.name_of
written_recorder = refl

GateReach-IsPrivate_example : IsPrivate written_gate
GateReach-IsPrivate_example =
    GateReach-IsPrivate demo_ops 0 (
      then_step (then_step start (enables 0 (minutes 15) refl))
        (writes none (7 ∷ 10 ∷ 8 ∷ []) refl))
