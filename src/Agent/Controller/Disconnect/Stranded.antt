-- ===== src/Agent/Controller/Disconnect/Stranded.antt =====
-- internal/agent/controller.go: a disconnect waits for `monitorDone`, which nobody closes when
-- `StartMonitor` has failed.
use overseas.Base.{ℕ, Bool, true, false, Option, none, some, ◌≡◌, arith, not, is_some, ◌&&◌}
use overseas.Base.Proc.{Blocks, Blocks-bind}
use overseas.Agent.Env.{Deps, Sys, MonitorTask, attending, TransitionKind}
use overseas.Agent.Restore.{restore_transaction}
use overseas.Agent.Safety.Log.{Core, core, On}
use overseas.Agent.Safety.Quiet.{quiet-Blocks}
use overseas.Agent.Controller.Validity.{IsValid}
use overseas.Agent.Controller.Blocks.{next_generation, begin_disconnect}
use overseas.Agent.Restore.{stop_lifecycle_monitor, await_monitor}
use overseas.Agent.Controller.Disconnect.{
  restore_if_needed, run_disconnect, disconnect_generation, disconnect_admitted, disconnect_request,
}
use overseas.Agent.Controller.Disconnect.Safety.{announce-IsQuiet}

abbrev pub is_attending : MonitorTask → Bool
is_attending attending = true
is_attending _ = false

module _ {N I : Type 0} where
  -- A channel to wait for, nobody who closes it, and something to restore.
  pub record IsStranded (c : Core N I) : Type 0 where
    pub watched : c.monitor_done ≡ true
    pub unattended : is_attending c.task ≡ false
    pub started : c.process_started ≡ true

module _ {W N I : Type 0} where
  stop_lifecycle_monitor-Blocks : Blocks {S = Sys W N I} (On IsStranded) stop_lifecycle_monitor
  unfolding stop_lifecycle_monitor await_monitor
  stop_lifecycle_monitor-Blocks = record { at = λ s p. ground arith }

module _ {W N I : Type 0} (d : Deps W N I) where
  restore_transaction-Blocks :
      (g : ℕ) (started : Bool) (i : Option I) (snapshot : Option N)
      → Blocks (On IsStranded) (restore_transaction d g started i snapshot)
  unfolding restore_transaction
  restore_transaction-Blocks g started i snapshot = Blocks-bind _ _ stop_lifecycle_monitor-Blocks

  restore_if_needed-Blocks : (g : ℕ) → Blocks (On IsStranded) (restore_if_needed d g)
  unfolding restore_if_needed
  restore_if_needed-Blocks g = record {
    at = λ s p.
        let e : (not (is_some s.snapshot) && (not s.process_started && s.reconciled)) ≡ false =
          ground arith in
        rw e
          ((restore_transaction-Blocks g s.process_started s.process_instance s.snapshot).at s p);
  }

  disconnect_generation-Blocks :
      (g : ℕ) (recovery : Bool) → Blocks (On IsStranded) (disconnect_generation d g recovery)
  unfolding disconnect_generation run_disconnect
  disconnect_generation-Blocks g recovery = Blocks-bind _ _ (
      quiet-Blocks IsStranded _ _ (announce-IsQuiet d g recovery)
        λ t. Blocks-bind _ _ (restore_if_needed-Blocks g))

  disconnect_admitted-stranded :
      (s : Sys W N I) (recovery : Bool) (active : Option TransitionKind)
      → active ≡ none
      → IsStranded (core s)
      → disconnect_admitted d recovery active s ≡ none
  unfolding disconnect_admitted begin_disconnect
  disconnect_admitted-stranded s recovery (some kind) e p = cc
  disconnect_admitted-stranded s recovery none e p =
      let never : (recovery
            && (s.reconciled && (not (is_some s.snapshot) && not s.process_started)))
          ≡ false =
        ground arith in
      rw never (
        (disconnect_generation-Blocks (next_generation s.generation) recovery).at
          (begin_disconnect s)
          (record { watched = p.watched; unattended = p.unattended; started = p.started }))

  -- From a valid state whose monitor channel nobody closes, `Disconnect` and `Recover` wait for ever.
  pub disconnect_request-stranded :
      (s : Sys W N I) (recovery : Bool)
      → IsValid (core s)
      → s.monitor_done ≡ true
      → is_attending s.task ≡ false
      → disconnect_request d recovery s ≡ none
  unfolding disconnect_request
  disconnect_request-stranded s recovery v m t =
      disconnect_admitted-stranded s recovery s.transition v.free
        (record { watched = m; unattended = t; started = (v.connected_holds (v.watched m)).0 })
