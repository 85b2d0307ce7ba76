-- ===== src/Agent/Lifecycle.antt =====
-- internal/agent/controller.go: every history of a controller, as a sequence of its operations.
use mathlib.Core.Path.{subst, ap}
use overseas.Base.{
  ℕ, Bool, true, false, Option, none, some, ◌≡◌, ◌↔◌, ◌⊎◌, arith, is_some, Bool-cases, inl, inr,
  refl,
}
use overseas.Base.Proc.{Returns}
use overseas.AccessModel.Model.{is_connected}
use overseas.Agent.Status.{ErrorCode}
use overseas.Agent.Env.{GoError, LineQuality, NetworkManager, Deps, Sys, MonitorTask, attending}
use overseas.Agent.Safety.Log.{core, On}
use overseas.Agent.Controller.{
  Reply, connect_request, disconnect_request, automatic_restore, MonitorEvent, monitor_lifecycle,
  update_line_quality,
}
use overseas.Agent.Controller.Validity.{IsValid, IsAttended, new_controller, new_controller-IsValid}
use overseas.Agent.Connect.Core.Safety.{HonorsStart}
use overseas.Agent.Controller.Connect.Safety.{IsAnswered, connect_request-IsAnswered}
use overseas.Agent.Controller.Connect.Monitored.{
  StartsMonitor, IsMonitored, connect_request-IsMonitored,
}
use overseas.Agent.Controller.Disconnect.Safety.{
  disconnect_request-IsAnswered, automatic_restore-IsValid, monitor_lifecycle-IsValid,
}
use overseas.Agent.Controller.Disconnect.Stranded.{is_attending, disconnect_request-stranded}

module _ {W N I : Type 0} (d : Deps W N I) where
  -- One operation that ended.
  pub data Step (s s' : Sys W N I) : Type 0 where
    connects : (r : Reply) → connect_request d s ≡ some (r, s') → Step s s'
    disconnects :
        (recovery : Bool) (r : Reply) → disconnect_request d recovery s ≡ some (r, s') → Step s s'
    restores :
        (g : ℕ) (code : ErrorCode) (reason : Option GoError)
        → automatic_restore d g code reason s ≡ some (tt, s')
        → Step s s'
    observes :
        (g : ℕ) (event : MonitorEvent) → monitor_lifecycle d g event s ≡ some (tt, s') → Step s s'
    measures : (g : ℕ) (q : LineQuality) → (update_line_quality g q s).1 ≡ s' → Step s s'

  pub data Reach (s : Sys W N I) : Sys W N I → Type 0 where
    here : Reach s s
    next : {t u : Sys W N I} → Reach s t → Step t u → Reach s u

Returns-some :
    {S A : Type 0} (Q : A → S → Type 0) {r : Option (A × S)} {a : A} {s : S}
    → Returns Q r
    → r ≡ some (a, s)
    → Q a s
Returns-some Q h e = subst (Returns Q) e h

Returns-is_some :
    {S A : Type 0} (Q : A → S → Type 0) (r : Option (A × S)) → Returns Q r → is_some r ≡ true
Returns-is_some Q none h = absurd h
Returns-is_some Q (some p) h = refl

task_attending : (t : MonitorTask) → is_attending t ≡ true → t ≡ attending
task_attending t e = ground arith

module _ {W N I : Type 0} (d : Deps W N I) (s : Sys W N I) (v : IsValid (core s)) where
  -- A disconnect that ended was attended.
  ended-IsAttended :
      (recovery : Bool) {r : Reply} {s' : Sys W N I}
      → disconnect_request d recovery s ≡ some (r, s')
      → IsAttended s
  ended-IsAttended recovery e m = elim (Bool-cases (is_attending s.task)) [
    | inl yes_attending ↦ task_attending s.task yes_attending
    | inr unattended ↦
        let never = disconnect_request-stranded d s recovery v m unattended in cc (never, e)
  ]

  update_line_quality-IsValid :
      (g : ℕ) (q : LineQuality) → IsValid (core (update_line_quality g q s).1)
  unfolding update_line_quality
  update_line_quality-IsValid g q = ground arith

  Step-IsValid : HonorsStart d → {s' : Sys W N I} → Step d s s' → IsValid (core s')
  Step-IsValid honors (connects r e) =
      (Returns-some IsAnswered (connect_request-IsAnswered d honors s v) e).0
  Step-IsValid honors (disconnects recovery r e) =
      (Returns-some IsAnswered
        (disconnect_request-IsAnswered d s v recovery (ended-IsAttended recovery e)) e).0
  Step-IsValid honors (restores g code reason e) =
      Returns-some (λ _ s'. IsValid (core s')) (automatic_restore-IsValid d s v g code reason) e
  Step-IsValid honors (observes g event e) =
      Returns-some (λ _ s'. IsValid (core s')) (monitor_lifecycle-IsValid d s v g event) e
  Step-IsValid honors (measures g q e) =
      subst (λ (t : Sys W N I). IsValid (core t)) e (update_line_quality-IsValid g q)

-- If `Start` returns an instance unless it fails with proof that no process runs, then every state that a new
-- controller reaches by connects, disconnects, recoveries, monitor events, automatic restorations
-- and quality reports, in any order, is valid: the network was only ever restored, and a core only
-- ever started, while no core could run; a core that may run is held together with its instance;
-- a snapshot or a core is held only when connected or failed safe; a connected controller holds both.
pub Reach-IsValid :
    {W N I : Type 0} (d : Deps W N I)
    → HonorsStart d
    → (w : W) {s : Sys W N I} → Reach d (new_controller w) s
    → IsValid (core s)
Reach-IsValid d honors w here = new_controller-IsValid w
Reach-IsValid d honors w (next {t = t} r st) =
    Step-IsValid d t (Reach-IsValid d honors w r) honors st

module _ {W N I : Type 0} (d : Deps W N I) where
  -- From a valid state `Disconnect` or `Recover` waits for ever exactly when there is a monitor
  -- channel that no goroutine closes.
  pub disconnect_ends_iff :
      (s : Sys W N I) (recovery : Bool)
      → IsValid (core s)
      → (disconnect_request d recovery s ≡ none)
        ↔ ((s.monitor_done ≡ true) × (is_attending s.task ≡ false))
  disconnect_ends_iff s recovery v = (
    λ e. ends_conversely (Bool-cases s.monitor_done) (Bool-cases (is_attending s.task)) e,
    λ p. disconnect_request-stranded d s recovery v p.0 p.1,
  )
    where
      answered : IsAttended s → disconnect_request d recovery s ≡ none → ⊥
      answered a e = subst (Returns IsAnswered) e (disconnect_request-IsAnswered d s v recovery a)

      ends_conversely :
          (s.monitor_done ≡ true) ⊎ (s.monitor_done ≡ false)
          → (is_attending s.task ≡ true) ⊎ (is_attending s.task ≡ false)
          → disconnect_request d recovery s ≡ none
          → (s.monitor_done ≡ true) × (is_attending s.task ≡ false)
      ends_conversely (inl m) (inr t) e = (m, t)
      ends_conversely (inl m) (inl t) e = absurd (answered (λ _. task_attending s.task t) e)
      ends_conversely (inr m) t e = absurd (answered (λ k. cc) e)

  ends_after :
      (outcome : Bool) (s : Sys W N I)
      → On (IsMonitored outcome) s
      → is_connected s.status.state ≡ true
      → (recovery : Bool) → is_some (disconnect_request d recovery s) ≡ outcome
  ends_after true s p con recovery =
      Returns-is_some IsAnswered _
        (disconnect_request-IsAnswered d s p.0 recovery (λ _. task_attending s.task (p.1 con).1))
  ends_after false s p con recovery =
      ap is_some (disconnect_request-stranded d s recovery p.0 (p.1 con).0 (p.1 con).1)

  -- If `Start` returns an instance unless it fails with proof that no process runs, and `StartMonitor` always
  -- succeeds (`outcome` is true) or always fails (false): after a `Connect` that started from a
  -- valid state that was not connected and left the controller connected, `Disconnect` and
  -- `Recover` end if `StartMonitor` succeeds, and wait for ever if it fails.
  pub disconnect_after_connect :
      (n : NetworkManager W N) (outcome : Bool) (s : Sys W N I)
      → HonorsStart d
      → StartsMonitor n outcome
      → d.network ≡ some n
      → IsValid (core s)
      → is_connected s.status.state ≡ false
      → {r : Reply} {s' : Sys W N I} → connect_request d s ≡ some (r, s')
      → is_connected s'.status.state ≡ true
      → (recovery : Bool) → is_some (disconnect_request d recovery s') ≡ outcome
  disconnect_after_connect n outcome s honors starts present v off e con recovery =
      ends_after outcome _
        (Returns-some (λ _. On (IsMonitored outcome))
          (connect_request-IsMonitored d honors n outcome starts present s v off) e)
        con recovery
