-- ===== src/Agent/Connect/Checks/Safety.antt =====
-- internal/agent/controller.go: `runConnect` settles on every path.
use overseas.Base.{ℕ, String, Bool, true, false, Option, none, some, ◌≡◌, refl, str_eq, ◌==◌}
use overseas.Base.Proc.{Returns, gets, ◌>>=◌, Sat, Sat-if}
use overseas.AccessModel.Model.{CredentialRef}
use overseas.Agent.Env.{GoError, Result, ok, err, Credential, Deps, Sys}
use overseas.Agent.Restore.Failure.{IsSettled}
use overseas.Agent.Safety.Log.{Held, core, held, may_run, changes, IsOrdered, On, IsUntouched}
use overseas.Agent.Safety.Quiet.{
  quiet_then, on_world-IsQuiet, trace_start-IsQuiet, trace_success-IsQuiet,
  trace_state_failure-IsQuiet,
}
use overseas.Agent.Connect.Basics.Safety.{fail_check-IsSettled, pre_check-Sat}
use overseas.Agent.Connect.Core.Safety.{HonorsStart}
use overseas.Agent.Connect.Capture.Safety.{run_network-IsSettled}
use overseas.Agent.Connect.Checks.{
  check_expiry, judge_credential, load_with, load_credential, judge_executable, verify_with,
  judge_policy, validate_policy, check_ownership, judge_context, run_connect,
}

module _ {W N I : Type 0} (d : Deps W N I) (g t₀ : ℕ) (honors : HonorsStart d) {B : ℕ → Type 0}
    {h : Held N I} where
  check_expiry-IsSettled :
      (t : ℕ) (cr : Credential) (expired : Bool)
      → Sat (On (IsUntouched B h)) (check_expiry d g t₀ t cr expired) (IsSettled B h.generation)
  unfolding check_expiry
  check_expiry-IsSettled t cr expired =
      Sat-if expired _ _ (λ _. fail_check-IsSettled d g _ t _ _ _ tt)
        λ _.
          quiet_then (IsUntouched B h) _ _ (trace_success-IsQuiet d g _ _ _ _ _ _)
            λ _. run_network-IsSettled d g t₀ cr honors

  judge_credential-IsSettled :
      (t : ℕ) (r : Result Credential)
      → Sat (On (IsUntouched B h)) (judge_credential d g t₀ t r) (IsSettled B h.generation)
  unfolding judge_credential
  judge_credential-IsSettled t (err e) = fail_check-IsSettled d g _ t _ e _ tt
  judge_credential-IsSettled t (ok cr) =
      Sat-if (cr.expires_at == 0) _ _ (λ _. check_expiry-IsSettled t cr true)
        λ _.
          quiet_then (IsUntouched B h) _ _ (on_world-IsQuiet d.now)
            λ now. check_expiry-IsSettled t cr _

  load_with-IsSettled :
      (t : ℕ) (load : Option (CredentialRef → W → Result Credential × W))
      → Sat (On (IsUntouched B h)) (load_with d g t₀ t load) (IsSettled B h.generation)
  unfolding load_with
  load_with-IsSettled t none = fail_check-IsSettled d g _ t _ _ _ tt
  load_with-IsSettled t (some load) =
      quiet_then (IsUntouched B h) _ _ (on_world-IsQuiet (load d.policy.credential))
        λ r. judge_credential-IsSettled t r

  load_credential-IsSettled :
      Sat (On (IsUntouched B h)) (load_credential d g t₀) (IsSettled B h.generation)
  unfolding load_credential
  load_credential-IsSettled =
      Sat-if (d.policy.schema_version == 1) _ _
        (λ _.
          quiet_then (IsUntouched B h) _ _ (trace_start-IsQuiet d g _ _ _)
            λ t. load_with-IsSettled t d.load_credential)
        λ _. run_network-IsSettled d g t₀ _ honors

  judge_executable-IsSettled :
      (t : ℕ) (e : Option GoError)
      → Sat (On (IsUntouched B h)) (judge_executable d g t₀ t e) (IsSettled B h.generation)
  unfolding judge_executable
  judge_executable-IsSettled t (some e) = fail_check-IsSettled d g _ t _ e _ tt
  judge_executable-IsSettled t none =
      quiet_then (IsUntouched B h) _ _ (trace_success-IsQuiet d g _ _ _ _ _ _)
        λ _. load_credential-IsSettled

  verify_with-IsSettled :
      (t : ℕ) (verify : Option (String → W → Option GoError × W))
      → Sat (On (IsUntouched B h)) (verify_with d g t₀ t verify) (IsSettled B h.generation)
  unfolding verify_with
  verify_with-IsSettled t none = fail_check-IsSettled d g _ t _ _ _ tt
  verify_with-IsSettled t (some verify) =
      Sat-if (str_eq d.executable_path "") _ _ (λ _. fail_check-IsSettled d g _ t _ _ _ tt)
        λ _.
          quiet_then (IsUntouched B h) _ _ (on_world-IsQuiet (verify d.executable_path))
            λ e. judge_executable-IsSettled t e

  judge_policy-IsSettled :
      (t : ℕ) (e : Option GoError)
      → Sat (On (IsUntouched B h)) (judge_policy d g t₀ t e) (IsSettled B h.generation)
  unfolding judge_policy
  judge_policy-IsSettled t (some e) = fail_check-IsSettled d g _ t _ e _ tt
  judge_policy-IsSettled t none =
      quiet_then (IsUntouched B h) _ _ (trace_success-IsQuiet d g _ _ _ _ _ _) λ _.
        quiet_then (IsUntouched B h) _ _ (trace_start-IsQuiet d g _ _ _)
          λ t'. verify_with-IsSettled t' d.verify_executable

  validate_policy-IsSettled :
      Sat (On (IsUntouched B h)) (validate_policy d g t₀) (IsSettled B h.generation)
  unfolding validate_policy
  validate_policy-IsSettled = quiet_then (IsUntouched B h) _ _ (trace_start-IsQuiet d g _ _ _) λ t.
      quiet_then (IsUntouched B h) _ _ (on_world-IsQuiet (d.validate_policy d.policy))
        λ e. judge_policy-IsSettled t e

  check_unowned-IsSettled :
      (started : Bool) (previous : Option I)
      → started ≡ false
      → Sat
          (On (IsUntouched B h))
          (check_ownership d g t₀ started previous)
          (IsSettled B h.generation)
  unfolding check_ownership
  check_unowned-IsSettled true previous e = cc
  check_unowned-IsSettled false previous e = validate_policy-IsSettled

  judge_context-IsSettled :
      (e : Option GoError)
      → h.process_started ≡ false
      → Sat (On (IsUntouched B h)) (judge_context d g t₀ e) (IsSettled B h.generation)
  unfolding judge_context gets ◌>>=◌
  judge_context-IsSettled (some e) idle =
      quiet_then (IsUntouched B h) _ _ (trace_state_failure-IsQuiet d g _ _ _ _)
        λ _. pre_check-Sat d _ tt
  judge_context-IsSettled none idle = record {
    at = λ s p.
        (check_unowned-IsSettled s.process_started s.process_instance
            (cc (p.running.kept, idle))).at
          s p;
  }

  pub run_connect-IsSettled :
      h.process_started ≡ false
      → Sat (On (IsUntouched B h)) (run_connect d g t₀) (IsSettled B h.generation)
  unfolding run_connect
  run_connect-IsSettled idle =
      quiet_then (IsUntouched B h) _ _ (on_world-IsQuiet d.context_error)
        λ e. judge_context-IsSettled e idle

module _ {W N I : Type 0} (d : Deps W N I) where
  -- If `Start` returns an instance unless it fails with proof that no process runs: from a state with
  -- ordered calls in which no core may run and none is held, and without a monitor, `runConnect` ends
  -- on every path, in the same generation and without a monitor; the calls stay ordered, a core may
  -- run only if the outcome says that it was started, and the outcome has one of three shapes.
  -- Connected, with a core, a snapshot and no error. Failed safe, not restored, with the instance of a
  -- core that was started. Or prepared, holding nothing, with an error: then either the outcome says
  -- restored, or the attempt enabled no leak protection, activated no routes and started no core.
  -- Where the outcome says restored, the network was given back after the last such call.
  pub run_connect-settles :
      HonorsStart d
      → (t₀ : ℕ) (s : Sys W N I) → IsOrdered s.calls
      → may_run s.calls ≡ false
      → s.process_started ≡ false
      → s.monitor_done ≡ false
      → Returns
          (IsSettled (λ n. n ≡ changes s.calls) s.generation)
          (run_connect d s.generation t₀ s)
  run_connect-settles honors t₀ s ordered unrun unowned unwatched =
      (run_connect-IsSettled d s.generation t₀ honors {h = held (core s)} unowned).at s (record {
        running = record {
          ordered = ordered;
          live = λ l. cc (l, unrun);
          kept = refl;
          unwatched = unwatched;
        };
        untouched = refl;
      })
