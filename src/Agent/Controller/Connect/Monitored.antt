-- ===== src/Agent/Controller/Connect/Monitored.antt =====
-- internal/agent/controller.go: whether `monitorDone` is attended after `Connect` is whether
-- `StartMonitor` succeeded.
use overseas.Base.{
  ℕ, Bool, true, false, Option, none, some, ◌≡◌, refl, arith, is_some, ◌||◌, if◌then◌else◌, ==_refl,
}
use overseas.Base.Proc.{Sat-weaken, Returns, Sat, Sat-pure, Sat-bind, Sat-if, Sat-modify}
use overseas.AccessModel.Model.{is_connected, is_failed_safe}
use overseas.Agent.Status.{Status}
use overseas.Agent.Env.{GoError, PreparedNetwork, NetworkManager, Deps, Sys, TransitionKind}
use overseas.Agent.Restore.{ConnectOutcome, is_nil}
use overseas.Agent.Restore.Failure.{IsSettled}
use overseas.Agent.Connect.Core.Safety.{HonorsStart}
use overseas.Agent.Connect.Checks.Safety.{run_connect-IsSettled}
use overseas.Agent.Safety.Log.{Held, Core, core, On, IsUntouched, IsRunning}
use overseas.Agent.Safety.Quiet.{
  quiet_then, log_then, world_then, on_world-IsQuiet, emit_trace-IsQuiet, trace_start-IsQuiet,
  trace_success-IsQuiet, trace_failure-IsQuiet,
}
use overseas.Agent.Controller.Validity.{IsValid}
use overseas.Agent.Controller.Blocks.{reply, next_generation, begin_connect, publish_connect}
use overseas.Agent.Controller.Disconnect.Stranded.{is_attending}
use overseas.Agent.Controller.Connect.{
  conclude_monitor, start_runtime_monitor, finish_connect, connect_generation, connect_admitted,
  connect_request,
}
use overseas.Agent.Controller.Connect.Safety.{
  publish_connect-IsValid, on_world-IsSettled, begin_connect-IsRunning,
}

-- `StartMonitor` always succeeds (`outcome = true`), or always fails.
abbrev pub StartsMonitor : {W N : Type 0} → NetworkManager W N → Bool → Type 0
StartsMonitor {W} n outcome =
    (ready : PreparedNetwork) (w : W) → is_nil (n.start_monitor ready w).0 ≡ outcome

module _ {N I : Type 0} where
  -- Valid; and where connected, there is a channel to wait for, attended as `outcome` says.
  abbrev pub IsMonitored : Bool → Core N I → Type 0
  IsMonitored outcome c =
      IsValid c
      × (is_connected c.status.state ≡ true
          → (c.monitor_done ≡ true) × (is_attending c.task ≡ outcome))

  abbrev IsPublished : Status → Core N I → Type 0
  IsPublished st c =
      IsValid c × (c.status ≡ st) × (is_connected st.state ≡ true → c.monitor_done ≡ true)

module _ {W N I : Type 0} where
  publish_connect-IsPublished :
      (g t : ℕ) (o : ConnectOutcome N I) (s : Sys W N I)
      → IsSettled (λ n. Unit) g o s
      → IsPublished o.status (core (publish_connect g t o s))
  unfolding publish_connect
  publish_connect-IsPublished g t o s r =
      let (v, e) = publish_connect-IsValid g t o s r in (v, e, ground (arith, ==_refl g))

module _ {W N I : Type 0} (d : Deps W N I) (honors : HonorsStart d) (n : NetworkManager W N)
    (outcome : Bool) (starts : StartsMonitor n outcome) where
  conclude_monitor-IsMonitored :
      (g t : ℕ) (e : Option GoError) (st : Status)
      → is_nil e ≡ outcome
      → is_connected st.state ≡ true
      → Sat (On (IsPublished st)) (conclude_monitor d g t e) (λ _. On (IsMonitored outcome))
  unfolding conclude_monitor
  conclude_monitor-IsMonitored g t (some e) st k con =
      quiet_then (IsPublished st) _ _ (trace_failure-IsQuiet d g _ _ _ _ _ _)
        λ _. Sat-modify _ (λ s p. ground arith)
  conclude_monitor-IsMonitored g t none st k con =
      quiet_then (IsPublished st) _ _ (trace_success-IsQuiet d g _ _ _ _ _ _)
        λ _. Sat-modify _ (λ s p. ground arith)

  start_runtime_monitor-IsMonitored :
      (g : ℕ) (ready : Option PreparedNetwork) (st : Status)
      → is_some ready ≡ true
      → is_connected st.state ≡ true
      → Sat
          (On (IsPublished st))
          (start_runtime_monitor d g (some n) ready)
          (λ _. On (IsMonitored outcome))
  unfolding start_runtime_monitor
  start_runtime_monitor-IsMonitored g none st r con = cc
  start_runtime_monitor-IsMonitored g (some ready) st r con =
      quiet_then (IsPublished st) _ _ (trace_start-IsQuiet d g _ _ _) λ t.
        world_then (IsPublished st) (n.start_monitor ready) _ λ w.
          log_then (IsPublished st) (IsPublished st) _ _ (λ c p. ground arith)
            (conclude_monitor-IsMonitored g t _ st (starts ready w) con)

  module _ (present : d.network ≡ some n) where
    monitor_network-IsMonitored :
        (g : ℕ) (m : Option (NetworkManager W N)) (ready : Option PreparedNetwork) (st : Status)
        → m ≡ some n
        → is_some ready ≡ true
        → is_connected st.state ≡ true
        → Sat
            (On (IsPublished st))
            (start_runtime_monitor d g m ready)
            (λ _. On (IsMonitored outcome))
    monitor_network-IsMonitored g m ready st e r con =
        rw e (start_runtime_monitor-IsMonitored g ready st r con)

    -- A connected outcome carries the prepared network.
    settled_ready :
        (g : ℕ) (o : ConnectOutcome N I) (s : Sys W N I)
        → IsSettled (λ n. Unit) g o s
        → is_connected o.status.state ≡ true
        → is_some o.prepared ≡ true
    settled_ready g o s r e = ground arith

    finish_connect-IsMonitored :
        (g : ℕ) (o : ConnectOutcome N I)
        → Sat (IsSettled (λ n. Unit) g o) (finish_connect d g o) (λ _. On (IsMonitored outcome))
    unfolding finish_connect
    finish_connect-IsMonitored g o = record {
      at = λ s r.
          (Sat-if {P = IsSettled (λ n. Unit) g o} (is_connected o.status.state) _ _
              (λ con. Sat-bind _ _ (on_world-IsSettled d.now g o) λ t.
                Sat-bind {R = λ _. On (IsPublished o.status)} _ _
                  (Sat-modify _ (λ s r. publish_connect-IsPublished g t o s r))
                  λ _.
                    Sat-bind _ _
                      (monitor_network-IsMonitored g d.network o.prepared o.status present
                        (settled_ready g o s r con) con)
                      λ _. Sat-pure _ (λ s p. p))
              (λ con.
                Sat-bind {R = λ _. On (IsPublished o.status)} _ _
                  (Sat-modify _ (λ s r. publish_connect-IsPublished g 0 o s r))
                  λ _. Sat-pure _ (λ s p. (p.0, λ e. ground arith)))).at
            s r;
    }

    connect_generation-IsMonitored :
        {h : Held N I}
        → h.process_started ≡ false
        → Sat
            (On (IsRunning h false))
            (connect_generation d h.generation)
            (λ _. On (IsMonitored outcome))
    unfolding connect_generation
    connect_generation-IsMonitored {h} idle =
        quiet_then (IsRunning h false) _ _ (emit_trace-IsQuiet d _) λ _.
          quiet_then (IsRunning h false) _ _ (on_world-IsQuiet d.now) λ t.
            Sat-bind _ _
              (Sat-weaken {P = On (IsUntouched (λ n. Unit) h)} _
                (λ s p. record { running = p; untouched = tt }) (λ a s q. q)
                (run_connect-IsSettled d h.generation t honors idle))
              λ o. finish_connect-IsMonitored h.generation o

    module _ (s : Sys W N I) (v : IsValid (core s))
        (off : is_connected s.status.state ≡ false) where
      connect_from-IsMonitored :
          (settled : Bool)
          → (is_connected s.status.state || is_failed_safe s.status.state) ≡ settled
          → Returns
              (λ _. On (IsMonitored outcome))
              (if settled
                then some (reply s.status, s)
                else connect_generation d (next_generation s.generation) (begin_connect s))
      unfolding begin_connect
      connect_from-IsMonitored true e = (v, λ con. cc)
      connect_from-IsMonitored false e =
          let (r, idle) = begin_connect-IsRunning s v e in
          (connect_generation-IsMonitored idle).at (begin_connect s) r

      connect_admitted-IsMonitored :
          (active : Option TransitionKind)
          → active ≡ none
          → Returns (λ _. On (IsMonitored outcome)) (connect_admitted d active s)
      unfolding connect_admitted
      connect_admitted-IsMonitored (some kind) e = cc
      connect_admitted-IsMonitored none e = connect_from-IsMonitored _ refl

      pub connect_request-IsMonitored :
          Returns (λ _. On (IsMonitored outcome)) (connect_request d s)
      unfolding connect_request
      connect_request-IsMonitored = connect_admitted-IsMonitored s.transition v.free
