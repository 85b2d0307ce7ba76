-- ===== src/Agent/Connect/Core/Safety.antt =====
-- internal/agent/controller.go: step 3 of `runConnect` settles. A core that may run is owned from its
-- start on.
use overseas.Base.{
  ℕ, String, Bool, true, false, Option, none, some, List, ◌∷◌, ◌≡◌, refl, arith, not, is_some, ◌&&◌,
  str_eq,
}
use overseas.Base.Proc.{Sat, Sat-bind, Sat-if}
use overseas.AccessModel.Model.{Policy}
use overseas.Agent.Env.{
  GoError, Result, ok, err, PreparedNetwork, Credential, Started, NetworkManager, Deps,
  core_started,
}
use overseas.Agent.Restore.{is_nil}
use overseas.Agent.Restore.Failure.{IsSettled}
use overseas.Agent.Safety.Log.{Held, Core, On, IsRunning}
use overseas.Agent.Safety.Quiet.{
  quiet_then, log_then, world_then, on_world-IsQuiet, trace_start-IsQuiet, trace_success-IsQuiet,
}
use overseas.Agent.Connect.Basics.Safety.{
  code_unless-IsError, enter_phase-IsRunning, fail_step-IsSettled,
}
use overseas.Agent.Connect.Tunnel.Safety.{wait_tun-IsSettled}
use overseas.Agent.Connect.Core.{
  judge_ready, await_ready, judge_start, start_with, start_core, fail_render, judge_write,
  judge_render, render_with, run_core,
}

-- The contract of `ProcessSupervisor.Start`: an instance comes back unless it is proven that no
-- process runs, and then with an error.
abbrev pub HonorsStart : {W N I : Type 0} → Deps W N I → Type 0
HonorsStart {W} {N} {I} d =
    (start : String → String → W → Started I × W)
    → d.start_process ≡ some start
    → (executable config : String) (w : W)
    → is_some (start executable config w).0.instance_handle ≡ false
    → ((start executable config w).0.termination_proven ≡ true)
      × (is_nil (start executable config w).0.error ≡ false)

-- Whether the code that follows `Start` will stop what may run.
abbrev will_stop : {I : Type 0} → Bool → Option I → Option GoError → Bool
will_stop proven i (some e) = not proven && is_some i
will_stop proven i none = is_some i

-- A start is logged; by the contract what may run is owned.
started-IsRunning :
    {N I : Type 0} {h : Held N I} (r : Started I) (c : Core N I)
    → (is_some r.instance_handle ≡ false → (r.termination_proven ≡ true) × (is_nil r.error ≡ false))
    → IsRunning h false c
    → IsRunning h
        (will_stop r.termination_proven r.instance_handle r.error)
        (record c { calls = core_started (is_nil r.error) r.termination_proven ∷ c.calls })
started-IsRunning r c k p = ground arith

module _ {W N I : Type 0} (d : Deps W N I) (g t₀ : ℕ) {B : ℕ → Type 0} {h : Held N I}
    (n : NetworkManager W N) (ready : PreparedNetwork) (snapshot : N) where
  judge_ready-IsSettled :
      (i : I) (t : ℕ) (e : Option GoError)
      → Sat
          (On (IsRunning h true))
          (judge_ready d g t₀ n ready snapshot i t e)
          (IsSettled B h.generation)
  unfolding judge_ready
  judge_ready-IsSettled i t (some e) =
      quiet_then (IsRunning h true) _ _ (on_world-IsQuiet d.context_error)
        λ c. fail_step-IsSettled d g _ _ t _ e _ _ true (some i) _ (code_unless-IsError c _ tt)
  judge_ready-IsSettled i t none =
      quiet_then (IsRunning h true) _ _ (trace_success-IsQuiet d g _ _ _ _ _ _)
        λ _. wait_tun-IsSettled d g t₀ n ready snapshot i

  await_ready-IsSettled :
      (t : ℕ) (i : I)
      → Sat
          (On (IsRunning h true))
          (await_ready d g t₀ n ready snapshot t i)
          (IsSettled B h.generation)
  unfolding await_ready
  await_ready-IsSettled t i =
      quiet_then (IsRunning h true) _ _ (trace_success-IsQuiet d g _ _ _ _ _ _) λ _.
        quiet_then (IsRunning h true) _ _ (trace_start-IsQuiet d g _ _ _) λ t'.
          quiet_then (IsRunning h true) _ _ (on_world-IsQuiet (d.ready i)) λ e.
            log_then (IsRunning h true) (IsRunning h true) _ _ (λ c p. ground arith)
              (judge_ready-IsSettled i t' e)

  judge_start-IsSettled :
      (t : ℕ) (proven : Bool) (i : Option I) (e : Option GoError)
      → Sat
          (On (IsRunning h (will_stop proven i e)))
          (judge_start d g t₀ n ready snapshot t proven i e)
          (IsSettled B h.generation)
  unfolding judge_start
  judge_start-IsSettled t true i (some e) =
      quiet_then (IsRunning h false) _ _ (on_world-IsQuiet d.context_error)
        λ c. fail_step-IsSettled d g _ _ t _ e _ _ false i _ (code_unless-IsError c _ tt)
  judge_start-IsSettled t false i (some e) =
      quiet_then (IsRunning h (is_some i)) _ _ (on_world-IsQuiet d.context_error)
        λ c. fail_step-IsSettled d g _ _ t _ e _ _ true i _ (code_unless-IsError c _ tt)
  judge_start-IsSettled t proven none none = fail_step-IsSettled d g _ _ t _ _ _ _ false none _ tt
  judge_start-IsSettled t proven (some i) none = await_ready-IsSettled t i

  module _ (honors : HonorsStart d) where
    start_with-IsSettled :
        (t : ℕ) (start : Option (String → String → W → Started I × W))
        → d.start_process ≡ start
        → Sat
            (On (IsRunning h false))
            (start_with d g t₀ n ready snapshot t start)
            (IsSettled B h.generation)
    unfolding start_with
    start_with-IsSettled t none e = fail_step-IsSettled d g _ _ t _ _ _ _ false none _ tt
    start_with-IsSettled t (some start) e =
        world_then (IsRunning h false) (start d.executable_path d.config_path) _ λ w.
          let r = (start d.executable_path d.config_path w).0 in
          log_then (IsRunning h false)
            (IsRunning h (will_stop r.termination_proven r.instance_handle r.error)) _ _
            (λ c p. started-IsRunning r c (honors start e _ _ w) p)
            (judge_start-IsSettled t r.termination_proven r.instance_handle r.error)

    start_core-IsSettled :
        (t : ℕ)
        → Sat
            (On (IsRunning h false))
            (start_core d g t₀ n ready snapshot t)
            (IsSettled B h.generation)
    unfolding start_core
    start_core-IsSettled t =
        quiet_then (IsRunning h false) _ _ (trace_success-IsQuiet d g _ _ _ _ _ _) λ _.
          quiet_then (IsRunning h false) _ _ (trace_start-IsQuiet d g _ _ _)
            λ t'. start_with-IsSettled t' d.start_process refl

    fail_render-IsSettled :
        (t : ℕ) (message : String) (e : GoError)
        → Sat
            (On (IsRunning h false))
            (fail_render d g t₀ ready snapshot t message e)
            (IsSettled B h.generation)
    unfolding fail_render
    fail_render-IsSettled t message e = fail_step-IsSettled d g _ _ t _ e _ _ false none _ tt

    judge_write-IsSettled :
        (t : ℕ) (e : Option GoError)
        → Sat
            (On (IsRunning h false))
            (judge_write d g t₀ n ready snapshot t e)
            (IsSettled B h.generation)
    unfolding judge_write
    judge_write-IsSettled t (some e) = fail_render-IsSettled t _ e
    judge_write-IsSettled t none = start_core-IsSettled t

    judge_render-IsSettled :
        (t : ℕ) (write : String → List ℕ → W → Option GoError × W) (r : Result (List ℕ))
        → Sat
            (On (IsRunning h false))
            (judge_render d g t₀ n ready snapshot t write r)
            (IsSettled B h.generation)
    unfolding judge_render
    judge_render-IsSettled t write (err e) = fail_render-IsSettled t _ e
    judge_render-IsSettled t write (ok config) =
        quiet_then (IsRunning h false) _ _ (on_world-IsQuiet (write d.config_path config)) λ e.
          log_then (IsRunning h false) (IsRunning h false) _ _ (λ c p. ground arith)
            (judge_write-IsSettled t e)

    render_with-IsSettled :
        (t : ℕ) (credential : Credential)
        (render : Option (Policy → Credential → W → Result (List ℕ) × W))
        (write : Option (String → List ℕ → W → Option GoError × W))
        → Sat
            (On (IsRunning h false))
            (render_with d g t₀ n ready snapshot t credential render write)
            (IsSettled B h.generation)
    unfolding render_with
    render_with-IsSettled t credential (some render) (some write) =
        Sat-if (str_eq d.config_path "") _ _ (λ _. fail_render-IsSettled t _ _)
          λ _.
            quiet_then (IsRunning h false) _ _ (on_world-IsQuiet (render d.policy credential)) λ r.
              log_then (IsRunning h false) (IsRunning h false) _ _ (λ c p. ground arith)
                (judge_render-IsSettled t write r)
    render_with-IsSettled t credential _ _ = fail_render-IsSettled t _ _

    pub run_core-IsSettled :
        (credential : Credential)
        → Sat
            (On (IsRunning h false))
            (run_core d g t₀ n ready snapshot credential)
            (IsSettled B h.generation)
    unfolding run_core
    run_core-IsSettled credential = Sat-bind _ _ (enter_phase-IsRunning d false _ _ t₀) λ _.
        quiet_then (IsRunning h false) _ _ (trace_start-IsQuiet d g _ _ _)
          λ t. render_with-IsSettled t credential d.render_config d.write_config
