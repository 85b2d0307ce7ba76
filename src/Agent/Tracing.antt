-- ===== src/Agent/Tracing.antt =====
-- internal/agent/controller.go: diagnostics and trace events, from `recordDiagnostic` to `emitTrace`.
use Prim.Native.String.{◌++◌}
use overseas.Base.{
  ℕ, ◌-◌, ◌/◌, pos, String, true, false, Option, none, some, ◌∷◌, str_eq, ◌||◌, if◌then◌else◌,
}
use overseas.Base.Proc.{Proc, pure, modify, ◌>>=◌, ◌>>◌}
use overseas.Trace.Event.{Event, Residue, is_member, approved_stages}
use overseas.Agent.Env.{GoError, Deps, Sys, Call}

-- What the controller makes its own of a diagnostic stage.
unfoldable pub normalize_diagnostic_stage : String → String → String
normalize_diagnostic_stage stage fallback =
    if is_member stage approved_stages
    then stage
    else if str_eq stage "ip_interface_scan" || str_eq stage "adapter_identity_join"
    then "adapter_scan"
    else fallback

-- `diagnosticStage`
unfoldable pub diagnostic_stage : GoError → String
diagnostic_stage e = elim e.diagnostic [ none ↦ "" | some (stage, detail) ↦ stage ]

abbrev diagnostic_of : Option GoError → Option (String × String)
diagnostic_of none = none
diagnostic_of (some e) = e.diagnostic

abbrev text_of : Option GoError → String
text_of none = ""
text_of (some e) = e.text

module _ {W N I : Type 0} where
  -- A dependency's call.
  unfoldable pub on_world : {A : Type 0} → (W → A × W) → Proc (Sys W N I) A
  on_world f s = let (a, w) = f s.world in some (a, record s { world = w })

  unfoldable pub log_call : Call → Proc (Sys W N I) Unit
  unfolding modify
  log_call c = modify (λ s. record s { calls = c ∷ s.calls })

module _ {W N I : Type 0} (d : Deps W N I) where
  raw_detail : String → Option GoError → String
  raw_detail stage err =
      let reported : String = elim (diagnostic_of err) [ none ↦ "" | some (_, detail) ↦ detail ] in
      let detail = if str_eq reported "" then text_of err else reported in
      if str_eq detail "" then "阶段 " ++ stage ++ " 未提供底层错误文本" else detail

  diagnosed_stage : String → Option GoError → String
  unfolding normalize_diagnostic_stage
  diagnosed_stage fallback err = elim (diagnostic_of err) [
    | none ↦ fallback
    | some (stage, detail) ↦ normalize_diagnostic_stage stage fallback
  ]

  diagnosed_detail : String → Option GoError → String
  unfolding raw_detail
  diagnosed_detail stage err =
      let detail = (d.sanitize (raw_detail stage err)).0 in
      if str_eq detail "" then "阶段 " ++ stage ++ " 失败" else detail

  -- `recordDiagnostic`; both callers use the detail alone.
  unfoldable pub record_diagnostic : String → Option GoError → Proc (Sys W N I) String
  unfolding diagnosed_stage diagnosed_detail ◌>>=◌ modify pure
  record_diagnostic fallback err =
      let stage = diagnosed_stage fallback err in
      let detail = diagnosed_detail stage err in
      do
        modify (λ s. record s { diagnostic_stage = stage; diagnostic_detail = detail })
        pure detail

  unfoldable pub emit_trace : Event → Proc (Sys W N I) Unit
  unfolding modify pure
  emit_trace e =
      if d.has_trace
      then modify (λ s. record s {
        trace =
            (record e {
              message = (d.sanitize e.message).0;
              detail = (d.sanitize e.detail).0;
              detail_truncated = (d.sanitize e.detail).1;
            })
            ∷ s.trace;
      })
      else pure tt

  -- The `traceevent.Event` literals of the controller: what is not named is zero.
  abbrev pub event_literal : ℕ → String → String → String → String → String → Event
  event_literal generation level component stage event message = record {
    schema = 0;
    sequence = 0;
    timestamp = 0;
    is_utc = true;
    generation = generation;
    level = level;
    component = component;
    stage = stage;
    event = event;
    elapsed_ms = none;
    message = message;
    detail = "";
    detail_truncated = false;
    residue = none;
  }

  unfoldable pub trace_start : ℕ → String → String → String → Proc (Sys W N I) ℕ
  unfolding emit_trace on_world ◌>>=◌ pure
  trace_start generation component stage message = do
    started_at ← on_world d.now
    emit_trace (event_literal generation "info" component stage "started" message)
    pure started_at

  trace_terminal :
      ℕ
      → String
      → String
      → String
      → String
      → ℕ
      → String
      → String
      → Option Residue
      → Proc (Sys W N I) Unit
  unfolding emit_trace on_world ◌>>=◌
  trace_terminal generation level component stage event started_at message detail residue = do
    finished_at ← on_world d.now
    let elapsed = (finished_at - started_at) / 1_000_000
    emit_trace (record (event_literal generation level component stage event message) {
      elapsed_ms = some (pos elapsed);
      detail = detail;
      residue = residue;
    })

  unfoldable pub trace_success :
      ℕ → String → String → ℕ → String → String → Option Residue → Proc (Sys W N I) Unit
  unfolding trace_terminal
  trace_success generation component stage started_at message detail residue =
      trace_terminal generation "info" component stage "succeeded" started_at message detail residue

  unfoldable pub trace_failure :
      ℕ → String → String → ℕ → String → Option GoError → Option Residue → Proc (Sys W N I) Unit
  unfolding record_diagnostic trace_terminal ◌>>=◌
  trace_failure generation component stage started_at message err residue = do
    detail ← record_diagnostic stage err
    trace_terminal generation "error" component stage "failed" started_at message detail residue

  unfoldable pub trace_state_failure :
      ℕ → String → String → String → Option GoError → Proc (Sys W N I) Unit
  unfolding record_diagnostic emit_trace ◌>>=◌
  trace_state_failure generation component stage message err = do
    detail ← record_diagnostic stage err
    emit_trace (record (event_literal generation "error" component stage "state" message) {
      detail = detail;
    })

-- An error that the controller makes itself: `errors.New(text)`.
abbrev pub new_error : String → GoError
new_error text = record {
  text = text;
  diagnostic = none;
  is_vpn_conflict = false;
  is_tun_mismatch = false;
  is_tun_not_found = false;
  is_network_changed = false;
  is_firewall_audit = false;
}
