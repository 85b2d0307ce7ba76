-- ===== src/Agent/Tests.antt =====
-- internal/agent/controller.go on a concrete network manager, supervisor and world: a world is the
-- number of calls that it has seen.
use overseas.Base.{
  ℕ, ℤ, pos, String, Bool, true, false, Option, none, some, [], ◌∷◌, ◌≡◌, refl, is_some, ◌+◌, arith,
  ◌↔◌, ◌&&◌,
}
use mathlib.Core.Path.{subst, ap}
use overseas.Base.Proc.{Returns}
use overseas.AccessModel.Model.{
  Policy, ConnectionState, connected, prepared, disconnected, failed_safe, is_connected,
}
use overseas.Agent.Status.{readiness_lost, ErrorCode, core_start_failed}
use overseas.Agent.Env.{
  GoError, ok, PreparedNetwork, Credential, Started, NetworkManager, Deps, Sys, attending, good,
}
use overseas.Agent.Restore.{restore_transaction, to_stop, is_nil}
use overseas.Agent.Restore.Failure.{IsSettled}
use overseas.Agent.Controller.Disconnect.Stranded.{is_attending}
use overseas.Agent.Restore.Safety.{restore_transaction-stops}
use overseas.Agent.Connect.{run_connect}
use overseas.Agent.Connect.Core.Safety.{HonorsStart}
use overseas.Agent.Connect.Checks.Safety.{run_connect-settles}
use overseas.Agent.Safety.Log.{core, changes, may_run, IsOrdered}
use overseas.Agent.Controller.{
  Reply, reply, connect_request, disconnect_request, automatic_restore, update_line_quality,
}
use overseas.Agent.Controller.Validity.{IsValid, IsAttended, new_controller, new_controller-IsValid}
use overseas.Agent.Controller.Connect.Safety.{IsAnswered, connect_request-IsAnswered}
use overseas.Agent.Controller.Disconnect.Safety.{
  disconnect_request-IsAnswered, automatic_restore-IsValid,
}
use overseas.Agent.Lifecycle.{
  Reach, connects, measures, here, next, Reach-IsValid, disconnect_ends_iff,
  disconnect_after_connect,
}

abbrev demo_failure : GoError
demo_failure = record {
  text = "no monitor";
  diagnostic = none;
  is_vpn_conflict = false;
  is_tun_mismatch = false;
  is_tun_not_found = false;
  is_network_changed = false;
  is_firewall_audit = false;
}

abbrev demo_prepared : PreparedNetwork
demo_prepared = record {
  generation = 1;
  fingerprint = "f";
  adapter_count = pos 2;
  rule_count = pos 3;
}

abbrev succeed : ℕ → Option GoError × ℕ
succeed w = (none, w + 1)

-- A network manager whose `StartMonitor` answers `failure`, with snapshot 7.
abbrev network_with : Option GoError → NetworkManager ℕ ℕ
network_with failure = record {
  prepare = λ w. (ok demo_prepared, w + 1);
  capture = λ ready w. (ok 7, w + 1);
  enable_protection = λ ready w. succeed w;
  wait_tun_ready = succeed;
  activate_tun_routes = succeed;
  start_monitor = λ ready w. (failure, w + 1);
  restore = λ snapshot w. succeed w;
  reconcile = succeed;
  residue = none;
}

abbrev demo_start : String → String → ℕ → Started ℕ × ℕ
demo_start executable config w =
    (record { instance_handle = some 5; error = none; termination_proven = false }, w + 1)

abbrev demo_policy : Policy
demo_policy = record {
  schema_version = 1;
  mode = "region-default-overseas";
  nodes = [];
  corporate_cidrs = [];
  corporate_dns = [];
  internal_suffixes = [];
  block_udp = true;
  block_quic = true;
  credential = record { kind = "dpapi"; path = "" };
}

abbrev demo_credential : Credential
demo_credential = record { method = "m"; password = []; expires_at = 1000000 }

abbrev demo_with : Option GoError → Deps ℕ ℕ ℕ
demo_with failure = record {
  policy = demo_policy;
  executable_path = "core.exe";
  config_path = "core.json";
  network = some (network_with failure);
  start_process = some demo_start;
  ready = λ i w. succeed w;
  stop = λ i w. (record { error = none; proven = true }, w + 1);
  validate_policy = λ p w. succeed w;
  verify_executable = some (λ path w. succeed w);
  load_credential = some (λ ref w. (ok demo_credential, w + 1));
  render_config = some (λ p c w. (ok [], w + 1));
  write_config = some (λ path content w. succeed w);
  now = λ w. (w, w + 1);
  context_error = λ w. (none, w);
  sanitize = λ text. (text, false);
  format_prepared = λ ready. "";
  format_rules = λ ready. "";
  has_trace = true;
}

abbrev demo : Deps ℕ ℕ ℕ
demo = demo_with none

abbrev demo_unmonitored : Deps ℕ ℕ ℕ
demo_unmonitored = demo_with (some demo_failure)

abbrev fresh : Sys ℕ ℕ ℕ
fresh = new_controller 0

-- Where a run ends, or `s` if it waits for ever.
abbrev end_of : {A : Type 0} → Option (A × Sys ℕ ℕ ℕ) → Sys ℕ ℕ ℕ → Sys ℕ ℕ ℕ
end_of none s = s
end_of (some (a, t)) s = t

abbrev answer_of : Option (Reply × Sys ℕ ℕ ℕ) → Reply → Reply
answer_of none r = r
answer_of (some (a, t)) r = a

abbrev online : Sys ℕ ℕ ℕ
online = end_of (connect_request demo fresh) fresh

online_state : online.status.state ≡ connected
unfolding overseas.Base.Proc.pure overseas.Base.Proc.gets overseas.Base.Proc.modify
    overseas.Base.Proc.◌>>=◌ overseas.Trace.Event.residue_is_zero overseas.Trace.Event.validate
    overseas.AccessModel.Model.state_text overseas.Agent.Status.failure_message
    overseas.Agent.Status.prepared_status overseas.Agent.Status.safe_failure
    overseas.Agent.Status.failed_safe_status overseas.Agent.Status.canceled_status
    overseas.Agent.Status.tun_failure_message overseas.Agent.Tracing.normalize_diagnostic_stage
    overseas.Agent.Tracing.diagnostic_stage overseas.Agent.Tracing.on_world
    overseas.Agent.Tracing.log_call overseas.Agent.Tracing.record_diagnostic
    overseas.Agent.Tracing.emit_trace overseas.Agent.Tracing.trace_start
    overseas.Agent.Tracing.trace_success overseas.Agent.Tracing.trace_failure
    overseas.Agent.Tracing.trace_state_failure overseas.Agent.Restore.unrestored
    overseas.Agent.Restore.restored_with overseas.Agent.Restore.await_monitor
    overseas.Agent.Restore.stop_lifecycle_monitor overseas.Agent.Restore.conclude_stop
    overseas.Agent.Restore.stop_instance overseas.Agent.Restore.fail_restore
    overseas.Agent.Restore.restore_network overseas.Agent.Restore.judge_residue
    overseas.Agent.Restore.verify_residue overseas.Agent.Restore.conclude_restore
    overseas.Agent.Restore.restore_with overseas.Agent.Restore.restore_ordinary_network
    overseas.Agent.Restore.restore_if_proven overseas.Agent.Restore.stop_then_restore
    overseas.Agent.Restore.restore_transaction overseas.Agent.Restore.conclude_failure
    overseas.Agent.Restore.restore_after_failure overseas.Agent.Connect.Basics.pre_check
    overseas.Agent.Connect.Basics.prepare_code overseas.Agent.Connect.Basics.enable_code
    overseas.Agent.Connect.Basics.tun_code overseas.Agent.Connect.Basics.enter_phase
    overseas.Agent.Connect.Basics.fail_step overseas.Agent.Connect.Basics.fail_check
    overseas.Agent.Connect.Tunnel.conclude_connected overseas.Agent.Connect.Tunnel.judge_routes
    overseas.Agent.Connect.Tunnel.activate_routes overseas.Agent.Connect.Tunnel.judge_tun
    overseas.Agent.Connect.Tunnel.wait_tun overseas.Agent.Connect.Core.judge_ready
    overseas.Agent.Connect.Core.await_ready overseas.Agent.Connect.Core.judge_start
    overseas.Agent.Connect.Core.start_with overseas.Agent.Connect.Core.start_core
    overseas.Agent.Connect.Core.fail_render overseas.Agent.Connect.Core.judge_write
    overseas.Agent.Connect.Core.judge_render overseas.Agent.Connect.Core.render_with
    overseas.Agent.Connect.Core.run_core overseas.Agent.Connect.Capture.judge_protection
    overseas.Agent.Connect.Capture.enable_protection overseas.Agent.Connect.Capture.judge_capture
    overseas.Agent.Connect.Capture.judge_prepare overseas.Agent.Connect.Capture.prepare_with
    overseas.Agent.Connect.Capture.run_network overseas.Agent.Connect.Checks.check_expiry
    overseas.Agent.Connect.Checks.judge_credential overseas.Agent.Connect.Checks.load_with
    overseas.Agent.Connect.Checks.load_credential overseas.Agent.Connect.Checks.judge_executable
    overseas.Agent.Connect.Checks.verify_with overseas.Agent.Connect.Checks.judge_policy
    overseas.Agent.Connect.Checks.validate_policy overseas.Agent.Connect.Checks.check_ownership
    overseas.Agent.Connect.Checks.judge_context overseas.Agent.Connect.Checks.run_connect
    overseas.Agent.Controller.wait_for_transition overseas.Agent.Controller.monitor_failure_code
    overseas.Agent.Controller.begin_connect overseas.Agent.Controller.publish_connect
    overseas.Agent.Controller.begin_disconnect overseas.Agent.Controller.publish_disconnect
    overseas.Agent.Controller.begin_restore overseas.Agent.Controller.publish_restore
    overseas.Agent.Controller.update_line_quality overseas.Agent.Controller.Validity.new_controller
    overseas.Agent.Controller.Connect.conclude_monitor
    overseas.Agent.Controller.Connect.start_runtime_monitor
    overseas.Agent.Controller.Connect.finish_connect
    overseas.Agent.Controller.Connect.connect_generation
    overseas.Agent.Controller.Connect.connect_admitted
    overseas.Agent.Controller.Connect.connect_request
    overseas.Agent.Controller.Disconnect.trace_recovered
    overseas.Agent.Controller.Disconnect.announce
    overseas.Agent.Controller.Disconnect.restore_if_needed
    overseas.Agent.Controller.Disconnect.run_disconnect
    overseas.Agent.Controller.Disconnect.disconnect_generation
    overseas.Agent.Controller.Disconnect.disconnect_admitted
    overseas.Agent.Controller.Disconnect.disconnect_request
    overseas.Agent.Controller.Disconnect.restore_generation
    overseas.Agent.Controller.Disconnect.automatic_restore
    overseas.Agent.Controller.Disconnect.monitor_lifecycle
online_state = refl

fresh_offline : is_connected fresh.status.state ≡ false
unfolding new_controller
fresh_offline = refl

fresh_idle : may_run fresh.calls ≡ false
unfolding new_controller
fresh_idle = refl

fresh_unowned : fresh.process_started ≡ false
unfolding new_controller
fresh_unowned = refl

fresh_unwatched : fresh.monitor_done ≡ false
unfolding new_controller
fresh_unwatched = refl

fresh-IsValid : IsValid (core fresh)
fresh-IsValid = new_controller-IsValid 0

-- A run that ends, as an equation.
run_of :
    (Q : Reply → Sys ℕ ℕ ℕ → Type 0) (r : Option (Reply × Sys ℕ ℕ ℕ)) (a : Reply) (s : Sys ℕ ℕ ℕ)
    → Returns Q r
    → r ≡ some (answer_of r a, end_of r s)
run_of Q none a s h = absurd h
run_of Q (some p) a s h = refl

start_of : Option (String → String → ℕ → Started ℕ × ℕ) → String → String → ℕ → Started ℕ × ℕ
start_of none = demo_start
start_of (some start) = start

demo_honors : (failure : Option GoError) → HonorsStart (demo_with failure)
unfolding start_of
demo_honors failure start e =
    subst
      (λ (f : String → String → ℕ → Started ℕ × ℕ).
        (executable config : String) (w : ℕ)
        → is_some (f executable config w).0.instance_handle ≡ false
        → ((f executable config w).0.termination_proven ≡ true)
          × (is_nil (f executable config w).0.error ≡ false))
      (ap start_of e) (λ executable config w k. cc)

online_run :
    connect_request demo fresh
    ≡ some (answer_of (connect_request demo fresh) (reply fresh.status), online)
online_run =
    run_of IsAnswered _ _ _
      (connect_request-IsAnswered demo (demo_honors none) fresh (new_controller-IsValid 0))

online_steps : Reach demo fresh (update_line_quality 1 good online).1
online_steps = next (next here (connects _ online_run)) (measures 1 good refl)

Reach-IsValid_example : IsValid (core (update_line_quality 1 good online).1)
Reach-IsValid_example = Reach-IsValid demo (demo_honors none) 0 online_steps

connect_request-IsAnswered_example : Returns IsAnswered (connect_request demo fresh)
connect_request-IsAnswered_example =
    connect_request-IsAnswered demo (demo_honors none) fresh (new_controller-IsValid 0)

online-IsValid : IsValid (core online)
online-IsValid = Reach-IsValid demo (demo_honors none) 0 (next here (connects _ online_run))

online_task : online.task ≡ attending
unfolding overseas.Base.Proc.pure overseas.Base.Proc.gets overseas.Base.Proc.modify
    overseas.Base.Proc.◌>>=◌ overseas.Trace.Event.residue_is_zero overseas.Trace.Event.validate
    overseas.AccessModel.Model.state_text overseas.Agent.Status.failure_message
    overseas.Agent.Status.prepared_status overseas.Agent.Status.safe_failure
    overseas.Agent.Status.failed_safe_status overseas.Agent.Status.canceled_status
    overseas.Agent.Status.tun_failure_message overseas.Agent.Tracing.normalize_diagnostic_stage
    overseas.Agent.Tracing.diagnostic_stage overseas.Agent.Tracing.on_world
    overseas.Agent.Tracing.log_call overseas.Agent.Tracing.record_diagnostic
    overseas.Agent.Tracing.emit_trace overseas.Agent.Tracing.trace_start
    overseas.Agent.Tracing.trace_success overseas.Agent.Tracing.trace_failure
    overseas.Agent.Tracing.trace_state_failure overseas.Agent.Restore.unrestored
    overseas.Agent.Restore.restored_with overseas.Agent.Restore.await_monitor
    overseas.Agent.Restore.stop_lifecycle_monitor overseas.Agent.Restore.conclude_stop
    overseas.Agent.Restore.stop_instance overseas.Agent.Restore.fail_restore
    overseas.Agent.Restore.restore_network overseas.Agent.Restore.judge_residue
    overseas.Agent.Restore.verify_residue overseas.Agent.Restore.conclude_restore
    overseas.Agent.Restore.restore_with overseas.Agent.Restore.restore_ordinary_network
    overseas.Agent.Restore.restore_if_proven overseas.Agent.Restore.stop_then_restore
    overseas.Agent.Restore.restore_transaction overseas.Agent.Restore.conclude_failure
    overseas.Agent.Restore.restore_after_failure overseas.Agent.Connect.Basics.pre_check
    overseas.Agent.Connect.Basics.prepare_code overseas.Agent.Connect.Basics.enable_code
    overseas.Agent.Connect.Basics.tun_code overseas.Agent.Connect.Basics.enter_phase
    overseas.Agent.Connect.Basics.fail_step overseas.Agent.Connect.Basics.fail_check
    overseas.Agent.Connect.Tunnel.conclude_connected overseas.Agent.Connect.Tunnel.judge_routes
    overseas.Agent.Connect.Tunnel.activate_routes overseas.Agent.Connect.Tunnel.judge_tun
    overseas.Agent.Connect.Tunnel.wait_tun overseas.Agent.Connect.Core.judge_ready
    overseas.Agent.Connect.Core.await_ready overseas.Agent.Connect.Core.judge_start
    overseas.Agent.Connect.Core.start_with overseas.Agent.Connect.Core.start_core
    overseas.Agent.Connect.Core.fail_render overseas.Agent.Connect.Core.judge_write
    overseas.Agent.Connect.Core.judge_render overseas.Agent.Connect.Core.render_with
    overseas.Agent.Connect.Core.run_core overseas.Agent.Connect.Capture.judge_protection
    overseas.Agent.Connect.Capture.enable_protection overseas.Agent.Connect.Capture.judge_capture
    overseas.Agent.Connect.Capture.judge_prepare overseas.Agent.Connect.Capture.prepare_with
    overseas.Agent.Connect.Capture.run_network overseas.Agent.Connect.Checks.check_expiry
    overseas.Agent.Connect.Checks.judge_credential overseas.Agent.Connect.Checks.load_with
    overseas.Agent.Connect.Checks.load_credential overseas.Agent.Connect.Checks.judge_executable
    overseas.Agent.Connect.Checks.verify_with overseas.Agent.Connect.Checks.judge_policy
    overseas.Agent.Connect.Checks.validate_policy overseas.Agent.Connect.Checks.check_ownership
    overseas.Agent.Connect.Checks.judge_context overseas.Agent.Connect.Checks.run_connect
    overseas.Agent.Controller.wait_for_transition overseas.Agent.Controller.monitor_failure_code
    overseas.Agent.Controller.begin_connect overseas.Agent.Controller.publish_connect
    overseas.Agent.Controller.begin_disconnect overseas.Agent.Controller.publish_disconnect
    overseas.Agent.Controller.begin_restore overseas.Agent.Controller.publish_restore
    overseas.Agent.Controller.update_line_quality overseas.Agent.Controller.Validity.new_controller
    overseas.Agent.Controller.Connect.conclude_monitor
    overseas.Agent.Controller.Connect.start_runtime_monitor
    overseas.Agent.Controller.Connect.finish_connect
    overseas.Agent.Controller.Connect.connect_generation
    overseas.Agent.Controller.Connect.connect_admitted
    overseas.Agent.Controller.Connect.connect_request
    overseas.Agent.Controller.Disconnect.trace_recovered
    overseas.Agent.Controller.Disconnect.announce
    overseas.Agent.Controller.Disconnect.restore_if_needed
    overseas.Agent.Controller.Disconnect.run_disconnect
    overseas.Agent.Controller.Disconnect.disconnect_generation
    overseas.Agent.Controller.Disconnect.disconnect_admitted
    overseas.Agent.Controller.Disconnect.disconnect_request
    overseas.Agent.Controller.Disconnect.restore_generation
    overseas.Agent.Controller.Disconnect.automatic_restore
    overseas.Agent.Controller.Disconnect.monitor_lifecycle
online_task = refl

disconnect_request-IsAnswered_example : Returns IsAnswered (disconnect_request demo false online)
disconnect_request-IsAnswered_example =
    disconnect_request-IsAnswered demo online online-IsValid false (λ _. online_task)

automatic_restore-IsValid_example :
    Returns
      (λ _ s. IsValid (core s))
      (automatic_restore demo 1 readiness_lost (some demo_failure) online)
automatic_restore-IsValid_example =
    automatic_restore-IsValid demo online online-IsValid 1 readiness_lost (some demo_failure)

disconnect_ends_iff_example :
    (disconnect_request demo true online ≡ none)
    ↔ ((online.monitor_done ≡ true) × (is_attending online.task ≡ false))
disconnect_ends_iff_example = disconnect_ends_iff demo online true online-IsValid

-- `StartMonitor` fails: the controller is connected, and a disconnect never ends.
abbrev stranded : Sys ℕ ℕ ℕ
stranded = end_of (connect_request demo_unmonitored fresh) fresh

stranded_run :
    connect_request demo_unmonitored fresh
    ≡ some (answer_of (connect_request demo_unmonitored fresh) (reply fresh.status), stranded)
stranded_run = run_of IsAnswered _ _ _ (
    connect_request-IsAnswered demo_unmonitored (demo_honors (some demo_failure)) fresh
      (new_controller-IsValid 0))

stranded_state : stranded.status.state ≡ connected
unfolding overseas.Base.Proc.pure overseas.Base.Proc.gets overseas.Base.Proc.modify
    overseas.Base.Proc.◌>>=◌ overseas.Trace.Event.residue_is_zero overseas.Trace.Event.validate
    overseas.AccessModel.Model.state_text overseas.Agent.Status.failure_message
    overseas.Agent.Status.prepared_status overseas.Agent.Status.safe_failure
    overseas.Agent.Status.failed_safe_status overseas.Agent.Status.canceled_status
    overseas.Agent.Status.tun_failure_message overseas.Agent.Tracing.normalize_diagnostic_stage
    overseas.Agent.Tracing.diagnostic_stage overseas.Agent.Tracing.on_world
    overseas.Agent.Tracing.log_call overseas.Agent.Tracing.record_diagnostic
    overseas.Agent.Tracing.emit_trace overseas.Agent.Tracing.trace_start
    overseas.Agent.Tracing.trace_success overseas.Agent.Tracing.trace_failure
    overseas.Agent.Tracing.trace_state_failure overseas.Agent.Restore.unrestored
    overseas.Agent.Restore.restored_with overseas.Agent.Restore.await_monitor
    overseas.Agent.Restore.stop_lifecycle_monitor overseas.Agent.Restore.conclude_stop
    overseas.Agent.Restore.stop_instance overseas.Agent.Restore.fail_restore
    overseas.Agent.Restore.restore_network overseas.Agent.Restore.judge_residue
    overseas.Agent.Restore.verify_residue overseas.Agent.Restore.conclude_restore
    overseas.Agent.Restore.restore_with overseas.Agent.Restore.restore_ordinary_network
    overseas.Agent.Restore.restore_if_proven overseas.Agent.Restore.stop_then_restore
    overseas.Agent.Restore.restore_transaction overseas.Agent.Restore.conclude_failure
    overseas.Agent.Restore.restore_after_failure overseas.Agent.Connect.Basics.pre_check
    overseas.Agent.Connect.Basics.prepare_code overseas.Agent.Connect.Basics.enable_code
    overseas.Agent.Connect.Basics.tun_code overseas.Agent.Connect.Basics.enter_phase
    overseas.Agent.Connect.Basics.fail_step overseas.Agent.Connect.Basics.fail_check
    overseas.Agent.Connect.Tunnel.conclude_connected overseas.Agent.Connect.Tunnel.judge_routes
    overseas.Agent.Connect.Tunnel.activate_routes overseas.Agent.Connect.Tunnel.judge_tun
    overseas.Agent.Connect.Tunnel.wait_tun overseas.Agent.Connect.Core.judge_ready
    overseas.Agent.Connect.Core.await_ready overseas.Agent.Connect.Core.judge_start
    overseas.Agent.Connect.Core.start_with overseas.Agent.Connect.Core.start_core
    overseas.Agent.Connect.Core.fail_render overseas.Agent.Connect.Core.judge_write
    overseas.Agent.Connect.Core.judge_render overseas.Agent.Connect.Core.render_with
    overseas.Agent.Connect.Core.run_core overseas.Agent.Connect.Capture.judge_protection
    overseas.Agent.Connect.Capture.enable_protection overseas.Agent.Connect.Capture.judge_capture
    overseas.Agent.Connect.Capture.judge_prepare overseas.Agent.Connect.Capture.prepare_with
    overseas.Agent.Connect.Capture.run_network overseas.Agent.Connect.Checks.check_expiry
    overseas.Agent.Connect.Checks.judge_credential overseas.Agent.Connect.Checks.load_with
    overseas.Agent.Connect.Checks.load_credential overseas.Agent.Connect.Checks.judge_executable
    overseas.Agent.Connect.Checks.verify_with overseas.Agent.Connect.Checks.judge_policy
    overseas.Agent.Connect.Checks.validate_policy overseas.Agent.Connect.Checks.check_ownership
    overseas.Agent.Connect.Checks.judge_context overseas.Agent.Connect.Checks.run_connect
    overseas.Agent.Controller.wait_for_transition overseas.Agent.Controller.monitor_failure_code
    overseas.Agent.Controller.begin_connect overseas.Agent.Controller.publish_connect
    overseas.Agent.Controller.begin_disconnect overseas.Agent.Controller.publish_disconnect
    overseas.Agent.Controller.begin_restore overseas.Agent.Controller.publish_restore
    overseas.Agent.Controller.update_line_quality overseas.Agent.Controller.Validity.new_controller
    overseas.Agent.Controller.Connect.conclude_monitor
    overseas.Agent.Controller.Connect.start_runtime_monitor
    overseas.Agent.Controller.Connect.finish_connect
    overseas.Agent.Controller.Connect.connect_generation
    overseas.Agent.Controller.Connect.connect_admitted
    overseas.Agent.Controller.Connect.connect_request
    overseas.Agent.Controller.Disconnect.trace_recovered
    overseas.Agent.Controller.Disconnect.announce
    overseas.Agent.Controller.Disconnect.restore_if_needed
    overseas.Agent.Controller.Disconnect.run_disconnect
    overseas.Agent.Controller.Disconnect.disconnect_generation
    overseas.Agent.Controller.Disconnect.disconnect_admitted
    overseas.Agent.Controller.Disconnect.disconnect_request
    overseas.Agent.Controller.Disconnect.restore_generation
    overseas.Agent.Controller.Disconnect.automatic_restore
    overseas.Agent.Controller.Disconnect.monitor_lifecycle
stranded_state = refl

disconnect_after_connect_example :
    is_some (disconnect_request demo_unmonitored false stranded) ≡ false
disconnect_after_connect_example =
    disconnect_after_connect demo_unmonitored (network_with (some demo_failure)) false fresh
      (demo_honors (some demo_failure)) (λ ready w. refl) refl fresh-IsValid fresh_offline
      stranded_run (ap is_connected stranded_state) false

restore_transaction-stops_example :
    Returns
      (λ o s.
        IsOrdered s.calls
        × ((o.is_restored && may_run s.calls) ≡ false)
        × (s.generation ≡ online.generation)
        × (s.monitor_done ≡ false))
      (restore_transaction demo 1 true (some 5) (some 7) online)
restore_transaction-stops_example =
    restore_transaction-stops demo 1 true (some 5) (some 7) online online-IsValid.ordered
      (λ _. refl) (λ _. online_task)

run_connect-settles_example :
    Returns (IsSettled (λ n. n ≡ changes fresh.calls) 0) (run_connect demo 0 0 fresh)
unfolding new_controller
run_connect-settles_example =
    run_connect-settles demo (demo_honors none) 0 fresh fresh-IsValid.ordered fresh_idle
      fresh_unowned fresh_unwatched
