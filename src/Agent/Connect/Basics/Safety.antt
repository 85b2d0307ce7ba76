-- ===== src/Agent/Connect/Basics/Safety.antt =====
-- internal/agent/controller.go: the ways out of a step of `runConnect`.
use overseas.Base.{
  ℕ, String, Bool, Option, none, some, refl, arith, is_some, Bool-cases, inl, inr, str_eq,
}
use overseas.Base.Proc.{pure, Sat, Sat-pure, Sat-weaken, Sat-modify}
use overseas.Agent.Status.{ErrorCode, safe_failure, Phase}
use overseas.Agent.Env.{GoError, PreparedNetwork, Deps, Sys}
use overseas.Agent.Tracing.{diagnostic_stage}
use overseas.Agent.Restore.{to_stop}
use overseas.Agent.Restore.Failure.{IsError, IsSettled, restore_after_failure-IsSettled}
use overseas.Agent.Safety.Log.{Held, On, IsUntouched, IsRunning, IsRunning-IsEntering}
use overseas.Agent.Safety.Quiet.{quiet_then, on_world-IsQuiet, trace_failure-IsQuiet}
use overseas.Agent.Connect.Basics.{
  pre_check, code_unless, prepare_code, enable_code, tun_code, enter_phase, fail_step, fail_check,
}

pub code_unless-IsError :
    (e : Option GoError) (code : ErrorCode) → IsError code → IsError (code_unless e code)
code_unless-IsError none code h = h
code_unless-IsError (some e) code h = tt

pub prepare_code-IsError :
    (e : GoError) (context : Option GoError) → IsError (prepare_code e context)
unfolding prepare_code
prepare_code-IsError e (some c) = tt
prepare_code-IsError e none = elim (Bool-cases e.is_vpn_conflict) [
  | inl h ↦ rw h tt
  | inr h ↦ rw h tt
]

pub tun_code-IsError : (e : GoError) (context : Option GoError) → IsError (tun_code e context)
unfolding tun_code
tun_code-IsError e (some c) = tt
tun_code-IsError e none = elim (Bool-cases e.is_tun_mismatch) [ inl h ↦ rw h tt | inr h ↦ rw h tt ]

pub enable_code-IsError : (e : GoError) (context : Option GoError) → IsError (enable_code e context)
unfolding enable_code
enable_code-IsError e (some c) = tt
enable_code-IsError e none = elim (Bool-cases (str_eq (diagnostic_stage e) "firewall_verify")) [
  | inl h ↦ rw h tt
  | inr h ↦ rw h tt
]

module _ {W N I : Type 0} (d : Deps W N I) {h : Held N I} where
  pub enter_phase-IsRunning :
      (owned : Bool) (phase : Phase) (step t : ℕ)
      → Sat (On (IsRunning h owned)) (enter_phase d phase step t) (λ _. On (IsRunning h owned))
  unfolding enter_phase
  enter_phase-IsRunning owned phase step t =
      quiet_then (IsRunning h owned) _ _ (on_world-IsQuiet d.now)
        λ now. Sat-modify _ (λ s p. ground arith)

module _ {W N I : Type 0} (d : Deps W N I) {B : ℕ → Type 0} {h : Held N I} where
  pub fail_step-IsSettled :
      (g : ℕ) (component stage : String) (t : ℕ) (message : String) (e : GoError) (code : ErrorCode)
      (ready : Option PreparedNetwork) (running : Bool) (i : Option I) (snapshot : Option N)
      → IsError code
      → Sat
          (On (IsRunning h (is_some (to_stop d running i))))
          (fail_step d g component stage t message e code ready running i snapshot)
          (IsSettled B h.generation)
  unfolding fail_step
  fail_step-IsSettled g component stage t message e code ready running i snapshot c =
      quiet_then (IsRunning h (is_some (to_stop d running i))) _ _
        (trace_failure-IsQuiet d g _ _ _ _ _ _)
        λ _.
          Sat-weaken _ (λ s r. IsRunning-IsEntering r) (λ a s q. q)
            (restore_after_failure-IsSettled d g code ready running i snapshot c)

  pub enter_phase-IsUntouched :
      (phase : Phase) (step t : ℕ)
      → Sat (On (IsUntouched B h)) (enter_phase d phase step t) (λ _. On (IsUntouched B h))
  unfolding enter_phase
  enter_phase-IsUntouched phase step t =
      quiet_then (IsUntouched B h) _ _ (on_world-IsQuiet d.now)
        λ now. Sat-modify _ (λ s p. record { running = ground arith; untouched = p.untouched })

  pre_check-IsSettled :
      (code : ErrorCode) (s : Sys W N I)
      → IsError code
      → On (IsUntouched B h) s
      → IsSettled B h.generation (pre_check code) s
  unfolding pre_check safe_failure
  pre_check-IsSettled code s e r = record {
    ordered = r.running.ordered;
    owned = λ l. r.running.live l;
    same_generation = ground arith;
    unwatched = r.running.unwatched;
    shape = (refl, refl, refl, e);
    untouched = λ _ _. r.untouched;
    restored = λ yes. cc;
  }

  pub pre_check-Sat :
      (code : ErrorCode)
      → IsError code
      → Sat {S = Sys W N I}
          (On (IsUntouched B h))
          (pure (pre_check code))
          (IsSettled B h.generation)
  pre_check-Sat code e = Sat-pure (pre_check code) (λ s r. pre_check-IsSettled code s e r)

  pub fail_check-IsSettled :
      (g : ℕ) (stage : String) (t : ℕ) (message : String) (e : GoError) (code : ErrorCode)
      → IsError code
      → Sat
          (On (IsUntouched B h))
          (fail_check d g stage t message e code)
          (IsSettled B h.generation)
  unfolding fail_check
  fail_check-IsSettled g stage t message e code c =
      quiet_then (IsUntouched B h) _ _ (trace_failure-IsQuiet d g _ _ _ _ _ _)
        λ _. pre_check-Sat code c
