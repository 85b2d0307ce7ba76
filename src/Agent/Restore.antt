-- ===== src/Agent/Restore.antt =====
-- internal/agent/controller.go: the reverse-order restoration that every way out of a connection
-- takes.
pub mod Safety
pub mod Failure
use overseas.Base.{
  ℕ, String, Bool, true, false, Option, none, some, not, is_some, ◌&&◌, if◌then◌else◌,
}
use overseas.Base.Proc.{Proc, pure, ◌>>=◌, ◌>>◌}
use overseas.Trace.Event.{Residue, residue_is_zero}
use overseas.Agent.Status.{Status, ErrorCode, prepared_status, safe_failure, failed_safe_status}
use overseas.Agent.Env.{
  GoError, Result, ok, err, PreparedNetwork, Termination, NetworkManager, Deps, MonitorTask, idle,
  attending, unattended, restored, reconciled, core_stopped, residue_read, Sys,
}
use overseas.Agent.Tracing.{
  on_world, log_call, trace_start, trace_success, trace_failure, new_error,
}

pub record DisconnectOutcome : Type 0 where
  pub status : Status
  pub is_restored : Bool
  pub error : Option GoError

pub record ConnectOutcome (N I : Type 0) : Type 0 where
  pub status : Status
  pub instance_handle : Option I
  pub process_started : Bool
  pub is_restored : Bool
  pub snapshot : Option N
  pub prepared : Option PreparedNetwork

-- `disconnectOutcome{status: failedSafeStatus(), restored: false, err: err}`
unfoldable pub unrestored : Option GoError → DisconnectOutcome
unrestored e = record { status = failed_safe_status; is_restored = false; error = e }

unfoldable pub restored_with : String → DisconnectOutcome
restored_with message = record {
  status = prepared_status message;
  is_restored = true;
  error = none;
}

abbrev pub is_nil : Option GoError → Bool
is_nil none = true
is_nil (some e) = false

abbrev pub error_of : {A : Type 0} → Result A → Option GoError
error_of (ok a) = none
error_of (err e) = some e

module _ {W N I : Type 0} where
  -- The wait for `done` ends if a goroutine closes it, and never ends if none does.
  unfoldable pub await_monitor : MonitorTask → Proc (Sys W N I) Unit
  await_monitor attending s = some (tt, record s { task = idle })
  await_monitor idle s = none
  await_monitor unattended s = none

  unfoldable pub stop_lifecycle_monitor : Proc (Sys W N I) Unit
  stop_lifecycle_monitor s =
      if s.monitor_done
      then await_monitor s.task (record s { monitor_done = false })
      else some (tt, s)

module _ {W N I : Type 0} (d : Deps W N I) where
  unfoldable pub conclude_stop : ℕ → ℕ → Termination → Proc (Sys W N I) Termination
  conclude_stop generation started_at termination =
      if not termination.proven
      then (do
        trace_failure d generation "core" "core_stop" started_at "访问核心停止失败"
            (if is_nil termination.error
              then some (new_error "core process tree termination is not proven")
              else termination.error)
            none
        pure termination)
      else do
        trace_success d generation "core" "core_stop" started_at "访问核心已停止"
            (if is_nil termination.error then "" else "核心返回退出错误，但进程树已确认停止") none
        pure termination

  unfoldable pub stop_instance : ℕ → I → Proc (Sys W N I) Termination
  stop_instance generation i = do
    started_at ← trace_start d generation "core" "core_stop" "停止访问核心"
    termination ← on_world (d.stop i)
    log_call (core_stopped termination.proven)
    conclude_stop generation started_at termination

  unfoldable pub fail_restore :
      ℕ → String → ℕ → String → Option GoError → Option Residue → Proc (Sys W N I) DisconnectOutcome
  fail_restore generation stage started_at message e residue = do
    trace_failure d generation "recovery" stage started_at message e residue
    pure (unrestored e)

  -- The call of `Restore` or of `Reconcile`.
  unfoldable pub restore_network : NetworkManager W N → Option N → Proc (Sys W N I) (Option GoError)
  restore_network n none = do e ← on_world n.reconcile; log_call (reconciled (is_nil e)); pure e
  restore_network n (some snapshot) = do
    e ← on_world (n.restore snapshot)
    log_call (restored (is_nil e))
    pure e

  unfoldable pub judge_residue : ℕ → ℕ → Result Residue → Proc (Sys W N I) DisconnectOutcome
  judge_residue generation started_at (err e) =
      fail_restore generation "residue_verify" started_at "连接残留检查失败" (some e) none
  judge_residue generation started_at (ok residue) =
      if not (residue_is_zero residue)
      then fail_restore generation "residue_verify" started_at "连接残留未清零"
          (some (new_error "product-owned network residue remains")) (some residue)
      else do
        trace_success d generation "recovery" "residue_verify" started_at "活动残留已清零" ""
            (some residue)
        pure (restored_with "普通网络已恢复")

  -- The check of a network manager that is a `residueReporter`.
  unfoldable pub verify_residue :
      ℕ → Option (W → Result Residue × W) → Proc (Sys W N I) DisconnectOutcome
  verify_residue generation none = pure (restored_with "普通网络已恢复")
  verify_residue generation (some reporter) = do
    started_at ← trace_start d generation "recovery" "residue_verify" "正在检查连接残留"
    residue ← on_world reporter
    log_call (residue_read (is_nil (error_of residue)))
    judge_residue generation started_at residue

  unfoldable pub conclude_restore :
      ℕ → ℕ → NetworkManager W N → Option GoError → Proc (Sys W N I) DisconnectOutcome
  conclude_restore generation started_at n (some e) =
      fail_restore generation "network_restore" started_at "普通网络恢复失败" (some e) none
  conclude_restore generation started_at n none = do
    trace_success d generation "recovery" "network_restore" started_at "普通网络已恢复" "" none
    verify_residue generation n.residue

  unfoldable pub restore_with :
      ℕ → ℕ → Option (NetworkManager W N) → Option N → Proc (Sys W N I) DisconnectOutcome
  restore_with generation started_at none snapshot =
      fail_restore generation "network_restore" started_at "普通网络恢复失败"
        (some (new_error "network manager is unavailable")) none
  restore_with generation started_at (some n) snapshot = do
    e ← restore_network n snapshot
    conclude_restore generation started_at n e

  -- The part of `restoreTransaction` behind the stop of the process.
  unfoldable pub restore_ordinary_network : ℕ → Option N → Proc (Sys W N I) DisconnectOutcome
  restore_ordinary_network generation snapshot = do
    started_at ← trace_start d generation "recovery" "network_restore" "正在恢复普通网络"
    restore_with generation started_at d.network snapshot

  -- `if processStarted && instance != nil`
  abbrev pub to_stop : Bool → Option I → Option I
  to_stop true i = i
  to_stop false i = none

  unfoldable pub restore_if_proven : ℕ → Option N → Termination → Proc (Sys W N I) DisconnectOutcome
  restore_if_proven generation snapshot termination =
      if not termination.proven
      then pure (unrestored termination.error)
      else restore_ordinary_network generation snapshot

  unfoldable pub stop_then_restore : ℕ → Option I → Option N → Proc (Sys W N I) DisconnectOutcome
  stop_then_restore generation none snapshot = restore_ordinary_network generation snapshot
  stop_then_restore generation (some i) snapshot = do
    termination ← stop_instance generation i
    restore_if_proven generation snapshot termination

  unfoldable pub restore_transaction :
      ℕ → Bool → Option I → Option N → Proc (Sys W N I) DisconnectOutcome
  restore_transaction generation process_started i snapshot = do
    stop_lifecycle_monitor
    stop_then_restore generation (to_stop process_started i) snapshot

  unfoldable pub conclude_failure :
      ℕ
      → ℕ
      → ErrorCode
      → Option PreparedNetwork
      → Bool
      → Option I
      → Option N
      → DisconnectOutcome
      → Proc (Sys W N I) (ConnectOutcome N I)
  conclude_failure generation started_at code prepared process_started i snapshot outcome =
      if outcome.is_restored
      then (do
        trace_success d generation "recovery" "automatic_restore" started_at "自动恢复完成，活动残留已清零" ""
            none
        pure (record {
          status = safe_failure code;
          instance_handle = none;
          process_started = false;
          is_restored = true;
          snapshot = none;
          prepared = prepared;
        }))
      else do
        trace_failure d generation "recovery" "automatic_restore" started_at "自动恢复无法证明完成"
            outcome.error none
        pure (record {
          status = failed_safe_status;
          instance_handle = i;
          process_started = process_started && is_some i;
          is_restored = false;
          snapshot = snapshot;
          prepared = prepared;
        })

  unfoldable pub restore_after_failure :
      ℕ
      → ErrorCode
      → Option PreparedNetwork
      → Bool
      → Option I
      → Option N
      → Proc (Sys W N I) (ConnectOutcome N I)
  restore_after_failure generation code prepared process_started i snapshot = do
    started_at ← trace_start d generation "recovery" "automatic_restore" "正在自动恢复普通网络"
    outcome ← restore_transaction generation process_started i snapshot
    conclude_failure generation started_at code prepared process_started i snapshot outcome
