-- ===== src/DiagnosticMode/History.antt =====
-- internal/diagnosticmode/gate.go: every history of the gate.
use overseas.Base.{ℕ, if_both, false, Option, List, ◌≡◌, refl}
use mathlib.Core.Path.{subst}
use overseas.Trace.Event.{Event}
use overseas.DiagnosticMode.Gate.{
  RecorderOps, Gate, new_gate, new_output_stream, has_stream, find_stream, close_output_stream,
  check_deadline, enable, expire, record_gated, write_gated, close_gate, batch_gated,
}
use overseas.DiagnosticMode.Privacy.{
  clear_output-IsBounded, put_stream-AllBounded, empty-IsKept, remove_stream-AllKept,
  append-AllKept,
}
use overseas.DiagnosticMode.Steps.{
  IsPrivate, enable-IsPrivate, check_deadline-IsPrivate, expire-IsPrivate, check_now-IsPrivate,
  off-IsPrivate,
}
use overseas.DiagnosticMode.Writes.{record_checked-IsPrivate, write_checked-IsPrivate}

module _ {W R : Type 0} (d : RecorderOps W R) where
  -- One operation of the gate, at the times and with the data that the caller gives.
  pub data GateStep (g h : Gate W R) : Type 0 where
    enables : (now t : ℕ) → (enable d now t g).1 ≡ h → GateStep g h
    asks : (now : ℕ) → check_deadline d now g ≡ h → GateStep g h
    expires : (epoch : ℕ) → expire d epoch g ≡ h → GateStep g h
    records : (e : Event) → record_gated d e g ≡ h → GateStep g h
    reads : (after limit : ℕ) → (batch_gated d after limit g).1 ≡ h → GateStep g h
    writes : (target : Option ℕ) (bytes : List ℕ) → write_gated d target bytes g ≡ h → GateStep g h
    adds_stream : (new_output_stream g).1 ≡ h → GateStep g h
    closes_stream : (i : ℕ) → close_output_stream i g ≡ h → GateStep g h
    closes : (close_gate d g).1 ≡ h → GateStep g h

  pub data GateReach (g : Gate W R) : Gate W R → Type 0 where
    start : GateReach g g
    then_step : {h k : Gate W R} → GateReach g h → GateStep h k → GateReach g k

  new_output_stream-IsPrivate : (g : Gate W R) → IsPrivate g → IsPrivate (new_output_stream g).1
  unfolding new_output_stream
  new_output_stream-IsPrivate g p = record {
    output_kept = p.output_kept;
    streams_kept = append-AllKept _ g.next_stream g.streams p.streams_kept;
    closed_kept = p.closed_kept;
    shut = p.shut;
  }

  close_output_stream-IsPrivate :
      (i : ℕ) (g : Gate W R) → IsPrivate g → IsPrivate (close_output_stream i g)
  unfolding close_output_stream
  close_output_stream-IsPrivate i g p =
      if_both IsPrivate (has_stream i g.streams)
        (λ _. record {
          output_kept = p.output_kept;
          streams_kept = remove_stream-AllKept _ i g.streams p.streams_kept;
          closed_kept = (clear_output-IsBounded (find_stream i g.streams), p.closed_kept);
          shut = p.shut;
        })
        (λ _. record {
          output_kept = p.output_kept;
          streams_kept = p.streams_kept;
          closed_kept =
              put_stream-AllBounded i _ g.closed_streams
                (clear_output-IsBounded (find_stream i g.closed_streams)) p.closed_kept;
          shut = p.shut;
        })

  close_gate-IsPrivate : (g : Gate W R) → IsPrivate g → IsPrivate (close_gate d g).1
  unfolding close_gate
  close_gate-IsPrivate g p = off-IsPrivate d _ p.closed_kept

  GateStep-IsPrivate : (g h : Gate W R) → IsPrivate g → GateStep g h → IsPrivate h
  GateStep-IsPrivate g h p (enables now t e) = subst IsPrivate e (enable-IsPrivate d now t g p)
  GateStep-IsPrivate g h p (asks now e) = subst IsPrivate e (check_deadline-IsPrivate d now g p)
  GateStep-IsPrivate g h p (expires epoch e) = subst IsPrivate e (expire-IsPrivate d epoch g p)
  GateStep-IsPrivate g h p (records event e) =
      subst IsPrivate e (record_checked-IsPrivate d event _ (check_now-IsPrivate d g p))
  GateStep-IsPrivate g h p (reads after limit e) = subst IsPrivate e (check_now-IsPrivate d g p)
  GateStep-IsPrivate g h p (writes target bytes e) =
      subst IsPrivate e (write_checked-IsPrivate d _ bytes _ (check_now-IsPrivate d g p))
  GateStep-IsPrivate g h p (adds_stream e) = subst IsPrivate e (new_output_stream-IsPrivate g p)
  GateStep-IsPrivate g h p (closes_stream i e) =
      subst IsPrivate e (close_output_stream-IsPrivate i g p)
  GateStep-IsPrivate g h p (closes e) = subst IsPrivate e (close_gate-IsPrivate g p)

new_gate-IsPrivate : {W R : Type 0} (w : W) → IsPrivate (new_gate {W = W} {R = R} w)
unfolding new_gate
new_gate-IsPrivate w = record {
  output_kept = empty-IsKept false _ refl;
  streams_kept = tt;
  closed_kept = tt;
  shut = λ c. refl;
}

-- Every history of a new gate, of its operations in any order and over any recorder, leaves at most
-- 4096 bytes of an unfinished line in each output, those of closed streams included. In the gate's own
-- output and in its open streams there are none while the gate has no recorder or while that output
-- drops a line; and the gate has no recorder once it is closed.
pub GateReach-IsPrivate :
    {W R : Type 0} (d : RecorderOps W R) (w : W) {g : Gate W R}
    → GateReach d (new_gate w) g
    → IsPrivate g
GateReach-IsPrivate d w start = new_gate-IsPrivate w
GateReach-IsPrivate d w (then_step r s) = GateStep-IsPrivate d _ _ (GateReach-IsPrivate d w r) s
