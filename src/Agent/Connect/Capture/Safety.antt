-- ===== src/Agent/Connect/Capture/Safety.antt =====
-- internal/agent/controller.go: steps 1 and 2 of `runConnect` settle.
use overseas.Base.{ℕ, false, Option, none, some, arith}
use overseas.Base.Proc.{Sat, Sat-weaken, Sat-bind, Sat-modify}
use overseas.Agent.Env.{GoError, Result, ok, err, PreparedNetwork, Credential, NetworkManager, Deps}
use overseas.Agent.Restore.Failure.{IsSettled}
use overseas.Agent.Safety.Log.{Held, On, IsUntouched, IsRunning}
use overseas.Agent.Safety.Quiet.{
  quiet_then, log_then, on_world-IsQuiet, trace_start-IsQuiet, trace_success-IsQuiet,
  trace_failure-IsQuiet,
}
use overseas.Agent.Connect.Basics.Safety.{
  code_unless-IsError, prepare_code-IsError, enable_code-IsError, enter_phase-IsRunning,
  enter_phase-IsUntouched, fail_step-IsSettled, pre_check-Sat,
}
use overseas.Agent.Connect.Core.Safety.{HonorsStart, run_core-IsSettled}
use overseas.Agent.Connect.Capture.{
  judge_protection, enable_protection, judge_capture, judge_prepare, prepare_with, run_network,
}

module _ {W N I : Type 0} (d : Deps W N I) (g t₀ : ℕ) (cr : Credential)
    (honors : HonorsStart d) where
  module _ {B : ℕ → Type 0} {h : Held N I} (n : NetworkManager W N) (ready : PreparedNetwork)
      (snapshot : N) where
    judge_protection-IsSettled :
        (t : ℕ) (e : Option GoError)
        → Sat
            (On (IsRunning h false))
            (judge_protection d g t₀ cr n ready snapshot t e)
            (IsSettled B h.generation)
    unfolding judge_protection
    judge_protection-IsSettled t (some e) =
        quiet_then (IsRunning h false) _ _ (on_world-IsQuiet d.context_error)
          λ c. fail_step-IsSettled d g _ _ t _ e _ _ false none _ (enable_code-IsError e c)
    judge_protection-IsSettled t none =
        quiet_then (IsRunning h false) _ _ (trace_success-IsQuiet d g _ _ _ _ _ _)
          λ _. run_core-IsSettled d g t₀ n ready snapshot honors cr

    enable_protection-IsSettled :
        Sat
          (On (IsRunning h false))
          (enable_protection d g t₀ cr n ready snapshot)
          (IsSettled B h.generation)
    unfolding enable_protection
    enable_protection-IsSettled = Sat-bind _ _ (enter_phase-IsRunning d false _ _ t₀) λ _.
        quiet_then (IsRunning h false) _ _ (trace_start-IsQuiet d g _ _ _) λ t.
          quiet_then (IsRunning h false) _ _ (on_world-IsQuiet (n.enable_protection ready)) λ e.
            log_then (IsRunning h false) (IsRunning h false) _ _ (λ c p. ground arith)
              (judge_protection-IsSettled t e)

  module _ {B : ℕ → Type 0} {h : Held N I} where
    judge_capture-IsSettled :
        (n : NetworkManager W N) (ready : PreparedNetwork) (t : ℕ) (r : Result N)
        → Sat
            (On (IsRunning h false))
            (judge_capture d g t₀ cr n ready t r)
            (IsSettled B h.generation)
    unfolding judge_capture
    judge_capture-IsSettled n ready t (err e) =
        quiet_then (IsRunning h false) _ _ (on_world-IsQuiet d.context_error)
          λ c. fail_step-IsSettled d g _ _ t _ e _ _ false none _ (code_unless-IsError c _ tt)
    judge_capture-IsSettled n ready t (ok snapshot) =
        let taken : Held N I = record h { snapshot = some snapshot } in
        Sat-bind {R = λ _. On (IsRunning taken false)} _ _ (Sat-modify _ (λ s p. ground arith)) λ _.
          quiet_then (IsRunning taken false) _ _ (trace_success-IsQuiet d g _ _ _ _ _ _)
            λ _. enable_protection-IsSettled {h = taken} n ready snapshot

    judge_prepare-IsSettled :
        (n : NetworkManager W N) (t : ℕ) (r : Result PreparedNetwork)
        → Sat (On (IsRunning h false)) (judge_prepare d g t₀ cr n t r) (IsSettled B h.generation)
    unfolding judge_prepare
    judge_prepare-IsSettled n t (err e) =
        quiet_then (IsRunning h false) _ _ (on_world-IsQuiet d.context_error)
          λ c. fail_step-IsSettled d g _ _ t _ e _ _ false none _ (prepare_code-IsError e c)
    judge_prepare-IsSettled n t (ok ready) =
        quiet_then (IsRunning h false) _ _ (trace_success-IsQuiet d g _ _ _ _ _ _) λ _.
          quiet_then (IsRunning h false) _ _ (trace_start-IsQuiet d g _ _ _) λ t'.
            quiet_then (IsRunning h false) _ _ (on_world-IsQuiet (n.capture ready)) λ r.
              log_then (IsRunning h false) (IsRunning h false) _ _ (λ c p. ground arith)
                (judge_capture-IsSettled n ready t' r)

    prepare_with-IsSettled :
        (t : ℕ) (n : Option (NetworkManager W N))
        → Sat (On (IsUntouched B h)) (prepare_with d g t₀ cr t n) (IsSettled B h.generation)
    unfolding prepare_with
    prepare_with-IsSettled t none =
        quiet_then (IsUntouched B h) _ _ (trace_failure-IsQuiet d g _ _ _ _ _ _)
          λ _. pre_check-Sat d _ tt
    prepare_with-IsSettled t (some n) =
        Sat-weaken {P = On (IsRunning h false)} _ (λ s p. p.running) (λ a s q. q)
          (quiet_then (IsRunning h false) _ _ (on_world-IsQuiet n.prepare) λ r.
            log_then (IsRunning h false) (IsRunning h false) _ _ (λ c p. ground arith)
              (judge_prepare-IsSettled n t r))

    pub run_network-IsSettled :
        Sat (On (IsUntouched B h)) (run_network d g t₀ cr) (IsSettled B h.generation)
    unfolding run_network
    run_network-IsSettled = Sat-bind _ _ (enter_phase-IsUntouched d _ _ t₀) λ _.
        quiet_then (IsUntouched B h) _ _ (trace_start-IsQuiet d g _ _ _)
          λ t. prepare_with-IsSettled t d.network
