-- ===== src/Agent/Safety/Quiet.antt =====
-- internal/agent/controller.go: the calls that leave the core of the state alone, and the rules by
-- which the proofs step through a procedure.
use overseas.Base.{ℕ, String, Option, ◌∷◌, ◌≡◌, refl, sym, arith}
use overseas.Base.Proc.{
  Proc, gets, ◌>>=◌, Returns, Returns-weaken, Sat, Sat-bind, Blocks, Blocks-after,
}
use mathlib.Core.Path.{subst}
use overseas.Trace.Event.{Event, Residue}
use overseas.Agent.Env.{GoError, Deps, Call, Sys}
use overseas.Agent.Tracing.{
  on_world, log_call, emit_trace, trace_start, trace_success, trace_failure, trace_state_failure,
}
use overseas.Agent.Safety.Log.{Core, core, On}

-- The procedure ends and keeps the core.
pub record IsQuiet {W N I A : Type 0} (m : Proc (Sys W N I) A) : Type 0 where
  pub at : (s : Sys W N I) → Returns (λ a s'. core s' ≡ core s) (m s)

module _ {W N I : Type 0} where
  pub on_world-IsQuiet : {A : Type 0} (f : W → A × W) → IsQuiet {N = N} {I = I} (on_world f)
  unfolding on_world
  on_world-IsQuiet f = record { at = λ s. refl }

  pub gets-IsQuiet : {A : Type 0} (f : Sys W N I → A) → IsQuiet (gets f)
  unfolding gets
  gets-IsQuiet f = record { at = λ s. refl }

module _ {W N I : Type 0} (d : Deps W N I) where
  pub emit_trace-IsQuiet : (e : Event) → IsQuiet (emit_trace d e)
  unfolding emit_trace
  emit_trace-IsQuiet e = record { at = λ s. ground arith }

  pub trace_start-IsQuiet :
      (g : ℕ) (component stage message : String) → IsQuiet (trace_start d g component stage message)
  unfolding trace_start
  trace_start-IsQuiet g component stage message = record { at = λ s. ground arith }

  pub trace_success-IsQuiet :
      (g : ℕ) (component stage : String) (t : ℕ) (message detail : String) (r : Option Residue)
      → IsQuiet (trace_success d g component stage t message detail r)
  unfolding trace_success
  trace_success-IsQuiet g component stage t message detail r = record { at = λ s. ground arith }

  pub trace_failure-IsQuiet :
      (g : ℕ) (component stage : String) (t : ℕ) (message : String) (e : Option GoError)
      (r : Option Residue)
      → IsQuiet (trace_failure d g component stage t message e r)
  unfolding trace_failure
  trace_failure-IsQuiet g component stage t message e r = record { at = λ s. ground arith }

  pub trace_state_failure-IsQuiet :
      (g : ℕ) (component stage message : String) (e : Option GoError)
      → IsQuiet (trace_state_failure d g component stage message e)
  unfolding trace_state_failure
  trace_state_failure-IsQuiet g component stage message e = record { at = λ s. ground arith }

module _ {W N I : Type 0} where
  pub log_call-Sat :
      (P R : Core N I → Type 0) (call : Call)
      → ((c : Core N I) → P c → R (record c { calls = call ∷ c.calls }))
      → Sat {S = Sys W N I} (On P) (log_call call) (λ _. On R)
  unfolding log_call
  log_call-Sat P R call h = record { at = λ s p. h (core s) p }

pub ruleset quiet_rules = (
  on_world-IsQuiet, gets-IsQuiet, emit_trace-IsQuiet, trace_start-IsQuiet, trace_success-IsQuiet,
  trace_failure-IsQuiet, trace_state_failure-IsQuiet,
)

module _ {W N I A B : Type 0} (P : Core N I → Type 0) {Q : B → Sys W N I → Type 0} where
  pub quiet_then :
      (m : Proc (Sys W N I) A) (f : A → Proc (Sys W N I) B)
      → IsQuiet m
      → ((a : A) → Sat (On P) (f a) Q)
      → Sat (On P) (m >>= f) Q
  quiet_then m f q k =
      Sat-bind {R = λ a. On P} m f
        (record { at = λ s p. Returns-weaken (m s) (λ a s' e. subst P (sym e) p) (q.at s) }) k

module _ {W N I B : Type 0} (P R : Core N I → Type 0) {Q : B → Sys W N I → Type 0} where
  -- The call is logged; `R` is what holds with it in the log.
  pub log_then :
      (call : Call) (f : Unit {0} → Proc (Sys W N I) B)
      → ((c : Core N I) → P c → R (record c { calls = call ∷ c.calls }))
      → Sat (On R) (f tt) Q
      → Sat (On P) (log_call call >>= f) Q
  log_then call f h k =
      Sat-bind {R = λ _. On R} (log_call call) f (log_call-Sat P R call h) (λ _. k)

module _ {W N I A B : Type 0} (P : Core N I → Type 0) {Q : B → Sys W N I → Type 0} where
  -- The value of a dependency's call is one that the dependency gives in some world.
  pub world_then :
      (f : W → A × W) (k : A → Proc (Sys W N I) B)
      → ((w : W) → Sat (On P) (k (f w).0) Q)
      → Sat (On P) (on_world f >>= k) Q
  unfolding on_world ◌>>=◌
  world_then f k h = record { at = λ s p. (h s.world).at (record s { world = (f s.world).1 }) p }

module _ {W N I A B : Type 0} (P : Core N I → Type 0) where
  pub quiet-Blocks :
      (m : Proc (Sys W N I) A) (f : A → Proc (Sys W N I) B)
      → IsQuiet m
      → ((a : A) → Blocks (On P) (f a))
      → Blocks (On P) (m >>= f)
  quiet-Blocks m f q k =
      Blocks-after {R = λ a. On P} m f
        (record { at = λ s p. Returns-weaken (m s) (λ a s' e. subst P (sym e) p) (q.at s) }) k
