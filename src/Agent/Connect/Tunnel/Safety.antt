-- ===== src/Agent/Connect/Tunnel/Safety.antt =====
-- internal/agent/controller.go: steps 4 to 6 of `runConnect` settle, whichever way they go.
use overseas.Base.{ℕ, true, Option, none, some, arith}
use overseas.Base.Proc.{Sat, Sat-pure, Sat-bind}
use overseas.Agent.Env.{GoError, PreparedNetwork, NetworkManager, Deps}
use overseas.Agent.Restore.Failure.{IsSettled}
use overseas.Agent.Safety.Log.{Held, On, IsRunning}
use overseas.Agent.Safety.Quiet.{
  quiet_then, log_then, on_world-IsQuiet, emit_trace-IsQuiet, trace_start-IsQuiet,
  trace_success-IsQuiet,
}
use overseas.Agent.Connect.Basics.Safety.{
  code_unless-IsError, tun_code-IsError, enter_phase-IsRunning, fail_step-IsSettled,
}
use overseas.Agent.Connect.Tunnel.{
  conclude_connected, judge_routes, activate_routes, judge_tun, wait_tun,
}

module _ {W N I : Type 0} (d : Deps W N I) (g t₀ : ℕ) {B : ℕ → Type 0} {h : Held N I}
    (n : NetworkManager W N) (ready : PreparedNetwork) (snapshot : N) (i : I) where
  conclude_connected-IsSettled :
      Sat
        (On (IsRunning h true))
        (conclude_connected d g t₀ ready snapshot i)
        (IsSettled B h.generation)
  unfolding conclude_connected
  conclude_connected-IsSettled = quiet_then (IsRunning h true) _ _ (on_world-IsQuiet d.now) λ t.
      quiet_then (IsRunning h true) _ _ (emit_trace-IsQuiet d _)
        λ _. Sat-pure _ (λ s r. ground arith)

  judge_routes-IsSettled :
      (t : ℕ) (e : Option GoError)
      → Sat
          (On (IsRunning h true))
          (judge_routes d g t₀ ready snapshot i t e)
          (IsSettled B h.generation)
  unfolding judge_routes
  judge_routes-IsSettled t (some e) =
      quiet_then (IsRunning h true) _ _ (on_world-IsQuiet d.context_error)
        λ c. fail_step-IsSettled d g _ _ t _ e _ _ true (some i) _ (code_unless-IsError c _ tt)
  judge_routes-IsSettled t none =
      quiet_then (IsRunning h true) _ _ (trace_success-IsQuiet d g _ _ _ _ _ _)
        λ _. conclude_connected-IsSettled

  activate_routes-IsSettled :
      Sat
        (On (IsRunning h true))
        (activate_routes d g t₀ n ready snapshot i)
        (IsSettled B h.generation)
  unfolding activate_routes
  activate_routes-IsSettled = Sat-bind _ _ (enter_phase-IsRunning d true _ _ t₀) λ _.
      quiet_then (IsRunning h true) _ _ (trace_start-IsQuiet d g _ _ _) λ t.
        quiet_then (IsRunning h true) _ _ (on_world-IsQuiet n.activate_tun_routes) λ e.
          log_then (IsRunning h true) (IsRunning h true) _ _ (λ c p. ground arith)
            (judge_routes-IsSettled t e)

  judge_tun-IsSettled :
      (t : ℕ) (e : Option GoError)
      → Sat
          (On (IsRunning h true))
          (judge_tun d g t₀ n ready snapshot i t e)
          (IsSettled B h.generation)
  unfolding judge_tun
  judge_tun-IsSettled t (some e) =
      quiet_then (IsRunning h true) _ _ (on_world-IsQuiet d.context_error)
        λ c. fail_step-IsSettled d g _ _ t _ e _ _ true (some i) _ (tun_code-IsError e c)
  judge_tun-IsSettled t none =
      quiet_then (IsRunning h true) _ _ (trace_success-IsQuiet d g _ _ _ _ _ _)
        λ _. activate_routes-IsSettled

  pub wait_tun-IsSettled :
      Sat (On (IsRunning h true)) (wait_tun d g t₀ n ready snapshot i) (IsSettled B h.generation)
  unfolding wait_tun
  wait_tun-IsSettled = Sat-bind _ _ (enter_phase-IsRunning d true _ _ t₀) λ _.
      quiet_then (IsRunning h true) _ _ (trace_start-IsQuiet d g _ _ _) λ t.
        quiet_then (IsRunning h true) _ _ (on_world-IsQuiet n.wait_tun_ready) λ e.
          log_then (IsRunning h true) (IsRunning h true) _ _ (λ c p. ground arith)
            (judge_tun-IsSettled t e)
