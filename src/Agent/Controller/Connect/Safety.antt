-- ===== src/Agent/Controller/Connect/Safety.antt =====
-- internal/agent/controller.go: `Connect` keeps the controller valid.
use overseas.Base.{
  ℕ, Bool, true, false, Option, none, some, ◌≡◌, refl, arith, ◌||◌, if◌then◌else◌, ==_refl,
}
use overseas.Base.Proc.{Sat-weaken, Returns, Sat, Sat-pure, Sat-bind, Sat-if, Sat-modify}
use overseas.AccessModel.Model.{is_connected, is_failed_safe}
use overseas.Agent.Status.{Status}
use overseas.Agent.Env.{GoError, PreparedNetwork, NetworkManager, Deps, Sys, TransitionKind}
use overseas.Agent.Tracing.{on_world}
use overseas.Agent.Restore.{ConnectOutcome}
use overseas.Agent.Restore.Failure.{IsSettled}
use overseas.Agent.Connect.Core.Safety.{HonorsStart}
use overseas.Agent.Connect.Checks.Safety.{run_connect-IsSettled}
use overseas.Agent.Safety.Log.{Held, Core, core, held, On, IsUntouched, IsRunning}
use overseas.Agent.Safety.Quiet.{
  quiet_then, log_then, on_world-IsQuiet, emit_trace-IsQuiet, trace_start-IsQuiet,
  trace_success-IsQuiet, trace_failure-IsQuiet,
}
use overseas.Agent.Controller.Validity.{IsValid}
use overseas.Agent.Controller.Blocks.{Reply, reply, next_generation, begin_connect, publish_connect}
use overseas.Agent.Controller.Connect.{
  conclude_monitor, start_runtime_monitor, finish_connect, connect_generation, connect_admitted,
  connect_request,
}

module _ {W N I : Type 0} where
  -- The answer is the published status, and the controller is valid.
  abbrev pub IsAnswered : Reply → Sys W N I → Type 0
  IsAnswered r s = IsValid (core s) × (r ≡ reply s.status)

  -- The outcome, once it is published.
  pub publish_connect-IsValid :
      (g t : ℕ) (o : ConnectOutcome N I) (s : Sys W N I)
      → IsSettled (λ n. Unit) g o s
      → IsValid (core (publish_connect g t o s)) × ((publish_connect g t o s).status ≡ o.status)
  unfolding publish_connect
  publish_connect-IsValid g t o s r = ground (arith, ==_refl g)

  pub on_world-IsSettled :
      {A : Type 0} (f : W → A × W) (g : ℕ) (o : ConnectOutcome N I)
      → Sat (IsSettled (λ n. Unit) g o) (on_world f) (λ _. IsSettled (λ n. Unit) g o)
  unfolding on_world
  on_world-IsSettled f g o = record {
    at = λ s r. record {
      ordered = r.ordered;
      owned = r.owned;
      same_generation = r.same_generation;
      unwatched = r.unwatched;
      shape = r.shape;
      untouched = r.untouched;
      restored = r.restored;
    };
  }

module _ {N I : Type 0} where
  -- Valid, with a given status.
  abbrev pub IsShowing : Status → Core N I → Type 0
  IsShowing st c = IsValid c × (c.status ≡ st)

module _ {W N I : Type 0} (d : Deps W N I) where
  conclude_monitor-IsShowing :
      (g t : ℕ) (e : Option GoError) (st : Status)
      → Sat (On (IsShowing st)) (conclude_monitor d g t e) (λ _. On (IsShowing st))
  unfolding conclude_monitor
  conclude_monitor-IsShowing g t (some e) st =
      quiet_then (IsShowing st) _ _ (trace_failure-IsQuiet d g _ _ _ _ _ _)
        λ _. Sat-modify _ (λ s p. ground arith)
  conclude_monitor-IsShowing g t none st =
      quiet_then (IsShowing st) _ _ (trace_success-IsQuiet d g _ _ _ _ _ _)
        λ _. Sat-modify _ (λ s p. ground arith)

  start_runtime_monitor-IsShowing :
      (g : ℕ) (n : Option (NetworkManager W N)) (ready : Option PreparedNetwork) (st : Status)
      → Sat (On (IsShowing st)) (start_runtime_monitor d g n ready) (λ _. On (IsShowing st))
  unfolding start_runtime_monitor
  start_runtime_monitor-IsShowing g (some n) (some ready) st =
      quiet_then (IsShowing st) _ _ (trace_start-IsQuiet d g _ _ _) λ t.
        quiet_then (IsShowing st) _ _ (on_world-IsQuiet (n.start_monitor ready)) λ e.
          log_then (IsShowing st) (IsShowing st) _ _ (λ c p. ground arith)
            (conclude_monitor-IsShowing g t e st)
  start_runtime_monitor-IsShowing g _ _ st = Sat-pure tt (λ s p. p)

  finish_connect-IsAnswered :
      (g : ℕ) (o : ConnectOutcome N I)
      → Sat (IsSettled (λ n. Unit) g o) (finish_connect d g o) IsAnswered
  unfolding finish_connect
  finish_connect-IsAnswered g o =
      Sat-if (is_connected o.status.state) _ _
        (λ _. Sat-bind _ _ (on_world-IsSettled d.now g o) λ t.
          Sat-bind {R = λ _. On (IsShowing o.status)} _ _
            (Sat-modify _ (λ s r. publish_connect-IsValid g t o s r))
            λ _.
              Sat-bind _ _ (start_runtime_monitor-IsShowing g d.network o.prepared o.status)
                λ _. Sat-pure _ (λ s p. (p.0, cc (p.1))))
        λ _.
          Sat-bind {R = λ _. On (IsShowing o.status)} _ _
            (Sat-modify _ (λ s r. publish_connect-IsValid g 0 o s r))
            λ _. Sat-pure _ (λ s p. (p.0, cc (p.1)))

  module _ (honors : HonorsStart d) {h : Held N I} where
    connect_generation-IsAnswered :
        h.process_started ≡ false
        → Sat (On (IsRunning h false)) (connect_generation d h.generation) IsAnswered
    unfolding connect_generation
    connect_generation-IsAnswered idle =
        quiet_then (IsRunning h false) _ _ (emit_trace-IsQuiet d _) λ _.
          quiet_then (IsRunning h false) _ _ (on_world-IsQuiet d.now) λ t.
            Sat-bind _ _
              (Sat-weaken {P = On (IsUntouched (λ n. Unit) h)} _
                (λ s p. record { running = p; untouched = tt }) (λ a s q. q)
                (run_connect-IsSettled d h.generation t honors idle))
              λ o. finish_connect-IsAnswered h.generation o

module _ {W N I : Type 0} where
  pub begin_connect-IsRunning :
      (s : Sys W N I)
      → IsValid (core s)
      → (is_connected s.status.state || is_failed_safe s.status.state) ≡ false
      → IsRunning (held (core (begin_connect s))) false (core (begin_connect s))
        × ((begin_connect s).process_started ≡ false)
  unfolding begin_connect
  begin_connect-IsRunning s v e = ground arith

module _ {W N I : Type 0} (d : Deps W N I) (honors : HonorsStart d) (s : Sys W N I)
    (v : IsValid (core s)) where
  connect_from-IsAnswered :
      (settled : Bool)
      → (is_connected s.status.state || is_failed_safe s.status.state) ≡ settled
      → Returns IsAnswered (
          if settled
          then some (reply s.status, s)
          else connect_generation d (next_generation s.generation) (begin_connect s))
  unfolding begin_connect
  connect_from-IsAnswered true e = (v, refl)
  connect_from-IsAnswered false e =
      let (r, idle) = begin_connect-IsRunning s v e in
      (connect_generation-IsAnswered d honors idle).at (begin_connect s) r

  connect_admitted-IsAnswered :
      (active : Option TransitionKind)
      → active ≡ none
      → Returns IsAnswered (connect_admitted d active s)
  unfolding connect_admitted
  connect_admitted-IsAnswered (some kind) e = cc
  connect_admitted-IsAnswered none e = connect_from-IsAnswered _ refl

  -- If `Start` returns an instance unless it fails with proof that no process runs: from a valid
  -- state `Connect` ends, on every path; it answers with the status that it leaves published, in a
  -- valid state.
  pub connect_request-IsAnswered : Returns IsAnswered (connect_request d s)
  unfolding connect_request
  connect_request-IsAnswered = connect_admitted-IsAnswered s.transition v.free
