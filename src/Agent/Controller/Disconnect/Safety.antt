-- ===== src/Agent/Controller/Disconnect/Safety.antt =====
-- internal/agent/controller.go: `Disconnect`, `Recover` and the automatic restoration keep the
-- controller valid.
use overseas.Base.{
  ℕ, String, Bool, true, false, Option, none, some, ◌≡◌, refl, sym, arith, not, is_some, ◌&&◌, ◌||◌,
  ◌==◌, if◌then◌else◌, Bool-cases, inl, inr, ==_refl,
}
use overseas.Base.Proc.{
  Proc, pure, ◌>>=◌, Returns, Returns-weaken, Sat, Sat-pure, Sat-bind, Sat-modify,
}
use overseas.AccessModel.Model.{is_connected}
use overseas.Agent.Status.{ErrorCode, prepared_status, safe_failure, failed_safe_status}
use overseas.Agent.Env.{GoError, Deps, Sys, TransitionKind}
use overseas.Agent.Tracing.{emit_trace}
use overseas.Agent.Restore.{DisconnectOutcome, to_stop, restore_transaction, restored_with}
use overseas.Agent.Restore.Safety.{IsRestored, restore_transaction-IsRestored}
use overseas.Agent.Safety.Log.{Held, Core, core, held, On, IsRunning, IsEntering}
use overseas.Agent.Safety.Quiet.{
  IsQuiet, quiet_then, trace_start-IsQuiet, trace_success-IsQuiet, trace_failure-IsQuiet,
  trace_state_failure-IsQuiet,
}
use overseas.Agent.Controller.Validity.{IsValid, IsAttended}
use overseas.Agent.Controller.Blocks.{
  reply, next_generation, begin_disconnect, publish_disconnect, begin_restore, publish_restore,
}
use mathlib.Core.Path.{subst}
use overseas.Agent.Controller.Connect.Safety.{IsAnswered}
use overseas.Agent.Controller.Disconnect.{
  trace_recovered, announce, restore_if_needed, run_disconnect, disconnect_generation,
  disconnect_admitted, disconnect_request, restore_generation, automatic_restore, MonitorEvent,
  core_exited, protection_failed, context_done, monitor_lifecycle,
}

module _ {W N I : Type 0} {h : Held N I} where
  publish_disconnect-IsValid :
      (o : DisconnectOutcome) (s : Sys W N I) (owned : Bool)
      → (owned ≡ true → h.process_started ≡ true)
      → (h.process_started ≡ true → is_some h.process_instance ≡ true)
      → IsRestored h owned o s
      → IsAnswered (reply o.status) (publish_disconnect h.generation o s)
  unfolding publish_disconnect failed_safe_status
  publish_disconnect-IsValid o s owned p q r = ground (arith, ==_refl h.generation)

  publish_restore-IsValid :
      (code : ErrorCode) (o : DisconnectOutcome) (s : Sys W N I) (owned : Bool)
      → (owned ≡ true → h.process_started ≡ true)
      → (h.process_started ≡ true → is_some h.process_instance ≡ true)
      → IsRestored h owned o s
      → IsValid (core (publish_restore h.generation code o s))
  unfolding publish_restore failed_safe_status safe_failure
  publish_restore-IsValid code o s owned p q r = ground (arith, ==_refl h.generation)

  quiet-IsRestored :
      {A : Type 0} (owned : Bool) (o : DisconnectOutcome) (m : Proc (Sys W N I) A)
      → IsQuiet m
      → Sat (IsRestored h owned o) m (λ _. IsRestored h owned o)
  quiet-IsRestored owned o m q = record {
    at = λ s r.
        Returns-weaken (m s)
          (λ a s' e. record {
            running = subst (IsRunning h (not o.is_restored && owned)) (sym e) r.running;
            state = r.state;
            code = r.code;
          })
          (q.at s);
  }

module _ {W N I : Type 0} (d : Deps W N I) where
  pub announce-IsQuiet : (g : ℕ) (recovery : Bool) → IsQuiet (announce d g recovery)
  unfolding announce emit_trace ◌>>=◌ pure
  announce-IsQuiet g true = trace_start-IsQuiet d g _ _ _
  announce-IsQuiet g false = record { at = λ s. ground arith }

  trace_recovered-IsQuiet :
      (g : ℕ) (recovery : Bool) (t : ℕ) (o : DisconnectOutcome)
      → IsQuiet (trace_recovered d g recovery t o)
  unfolding trace_recovered pure
  trace_recovered-IsQuiet g false t o = record { at = λ s. refl }
  trace_recovered-IsQuiet g true t o = elim (Bool-cases o.is_restored) [
    | inl e ↦ rw e (trace_success-IsQuiet d g _ _ _ _ _ _)
    | inr e ↦ rw e (trace_failure-IsQuiet d g _ _ _ _ _ _)
  ]

module _ {W N I : Type 0} (d : Deps W N I) (h : Held N I) where
  -- A disconnect may enter the restoration, or find nothing to restore.
  abbrev IsDisconnecting : Core N I → Type 0
  IsDisconnecting c =
      IsEntering h (is_some (to_stop d h.process_started h.process_instance)) c
      × (c.monitor_done ≡ true → c.process_started ≡ true)

  -- `restoreTransaction` with the fields that the operation holds.
  restore_held-IsRestored :
      (g : ℕ) (s : Sys W N I)
      → On (IsEntering h (is_some (to_stop d h.process_started h.process_instance))) s
      → Returns
          (IsRestored h (is_some (to_stop d h.process_started h.process_instance)))
          (restore_transaction d g s.process_started s.process_instance s.snapshot s)
  restore_held-IsRestored g s p =
      subst
        (λ (h' : Held N I).
          Returns (IsRestored h' (is_some (to_stop d h'.process_started h'.process_instance)))
            (restore_transaction d g s.process_started s.process_instance s.snapshot s))
        p.kept
        ((restore_transaction-IsRestored d {h = held (core s)} g s.process_started
            s.process_instance s.snapshot).at
          s
          (record {
            ordered = p.ordered;
            live = λ l.
                subst
                  (λ (h' : Held N I).
                    is_some (to_stop d h'.process_started h'.process_instance) ≡ true)
                  (sym p.kept) (p.live l);
            kept = refl;
            attended = p.attended;
          }))

  nothing_held-IsRestored :
      (message : String) (s : Sys W N I)
      → On IsDisconnecting s
      → (not (is_some s.snapshot) && (not s.process_started && s.reconciled)) ≡ true
      → IsRestored h
          (is_some (to_stop d h.process_started h.process_instance))
          (restored_with message)
          s
  unfolding restored_with prepared_status
  nothing_held-IsRestored message s p e = ground arith

  restore_if_needed-IsRestored :
      (g : ℕ)
      → Sat
          (On IsDisconnecting)
          (restore_if_needed d g)
          (IsRestored h (is_some (to_stop d h.process_started h.process_instance)))
  unfolding restore_if_needed pure
  restore_if_needed-IsRestored g = record {
    at = λ s p.
        elim (Bool-cases (not (is_some s.snapshot) && (not s.process_started && s.reconciled))) [
          | inl e ↦ rw e (nothing_held-IsRestored _ s p e)
          | inr e ↦ rw e (restore_held-IsRestored g s p.0)
        ];
  }

  run_disconnect-IsRestored :
      (g : ℕ) (recovery : Bool)
      → Sat
          (On IsDisconnecting)
          (run_disconnect d g recovery)
          (IsRestored h (is_some (to_stop d h.process_started h.process_instance)))
  unfolding run_disconnect
  run_disconnect-IsRestored g recovery =
      quiet_then IsDisconnecting _ _ (announce-IsQuiet d g recovery) λ t.
        Sat-bind _ _ (restore_if_needed-IsRestored g) λ o.
          Sat-bind _ _ (quiet-IsRestored _ o _ (trace_recovered-IsQuiet d g recovery t o))
            λ _. Sat-pure o (λ s r. r)

  module _ (consistent : h.process_started ≡ true → is_some h.process_instance ≡ true) where
    owned_started :
        is_some (to_stop d h.process_started h.process_instance) ≡ true → h.process_started ≡ true
    owned_started e = ground arith

    disconnect_generation-IsAnswered :
        (recovery : Bool)
        → Sat (On IsDisconnecting) (disconnect_generation d h.generation recovery) IsAnswered
    unfolding disconnect_generation
    disconnect_generation-IsAnswered recovery =
        Sat-bind _ _ (run_disconnect-IsRestored h.generation recovery) λ o.
          Sat-bind {R = λ _. IsAnswered (reply o.status)} _ _
            (Sat-modify _ (λ s r. publish_disconnect-IsValid o s _ owned_started consistent r))
            λ _. Sat-pure _ (λ s p. p)

    restore_generation-IsValid :
        (code : ErrorCode) (reason : Option GoError) (s : Sys W N I)
        → On (IsEntering h (is_some (to_stop d h.process_started h.process_instance))) s
        → Returns
            (λ _ s'. IsValid (core s'))
            (restore_generation d h.generation code reason h.process_started h.process_instance
              h.snapshot s)
    unfolding restore_generation
    restore_generation-IsValid code reason s p =
        (quiet_then (IsEntering h (is_some (to_stop d h.process_started h.process_instance))) _ _
            (trace_state_failure-IsQuiet d h.generation _ _ _ _)
            (λ _.
              Sat-bind _ _
                (restore_transaction-IsRestored d h.generation h.process_started h.process_instance
                  h.snapshot)
                λ o.
                  Sat-modify _
                    (λ s r. publish_restore-IsValid code o s _ owned_started consistent r))).at
          s p

module _ {W N I : Type 0} (d : Deps W N I) (s : Sys W N I) (v : IsValid (core s)) where
  begin_disconnect-IsDisconnecting :
      IsAttended s
      → IsDisconnecting d (held (core (begin_disconnect s))) (core (begin_disconnect s))
  unfolding begin_disconnect
  begin_disconnect-IsDisconnecting a =
      ground (arith, v.owned, v.with_instance, v.watched, v.connected_holds)

  disconnect_from-IsAnswered :
      (recovery done : Bool)
      → IsAttended s
      → Returns IsAnswered (
          if done
          then some (reply s.status, s)
          else disconnect_generation d (next_generation s.generation) recovery (begin_disconnect s))
  unfolding begin_disconnect
  disconnect_from-IsAnswered recovery true a = (v, refl)
  disconnect_from-IsAnswered recovery false a =
      (disconnect_generation-IsAnswered d (held (core (begin_disconnect s))) v.with_instance
          recovery).at
        (begin_disconnect s) (begin_disconnect-IsDisconnecting a)

  disconnect_admitted-IsAnswered :
      (recovery : Bool) (active : Option TransitionKind)
      → active ≡ none
      → IsAttended s
      → Returns IsAnswered (disconnect_admitted d recovery active s)
  unfolding disconnect_admitted
  disconnect_admitted-IsAnswered recovery (some kind) e a = cc
  disconnect_admitted-IsAnswered recovery none e a = disconnect_from-IsAnswered recovery _ a

  -- From a valid state whose monitor channel, if there is one, is attended, `Disconnect` and
  -- `Recover` end; they answer with the status that they leave published, in a valid state.
  pub disconnect_request-IsAnswered :
      (recovery : Bool) → IsAttended s → Returns IsAnswered (disconnect_request d recovery s)
  unfolding disconnect_request
  disconnect_request-IsAnswered recovery a =
      disconnect_admitted-IsAnswered recovery s.transition v.free a

  begin_restore-IsEntering :
      let h = held (core (begin_restore s)) in
      IsEntering h
        (is_some (to_stop d h.process_started h.process_instance))
        (core (begin_restore s))
  unfolding begin_restore
  begin_restore-IsEntering = ground (arith, v.owned, v.with_instance)

  restore_now-IsValid :
      (g : ℕ) (code : ErrorCode) (reason : Option GoError)
      → s.generation ≡ g
      → Returns
          (λ _ s'. IsValid (core s'))
          (restore_generation d g code reason s.process_started s.process_instance s.snapshot
            (begin_restore s))
  unfolding begin_restore
  restore_now-IsValid g code reason e =
      subst
        (λ (k : ℕ).
          Returns (λ _ s'. IsValid (core s'))
            (restore_generation d k code reason s.process_started s.process_instance s.snapshot
              (begin_restore s)))
        e
        (restore_generation-IsValid d (held (core (begin_restore s))) v.with_instance code reason
          (begin_restore s) begin_restore-IsEntering)

  -- From a valid state the automatic restoration of any generation, with any code and reason, ends
  -- and leaves the controller valid, whether the monitor's channel is attended or not.
  pub automatic_restore-IsValid :
      (g : ℕ) (code : ErrorCode) (reason : Option GoError)
      → Returns (λ _ s'. IsValid (core s')) (automatic_restore d g code reason s)
  unfolding automatic_restore
  automatic_restore-IsValid g code reason =
      elim (Bool-cases (not (s.generation == g) || not (is_connected s.status.state))) [
        | inl e ↦ rw e v
        | inr e ↦ rw e (elim (Bool-cases (is_some s.transition)) [
          | inl busy ↦ rw busy v
          | inr idle ↦ rw idle (restore_now-IsValid g code reason (ground arith))
        ])
      ]

  pub monitor_lifecycle-IsValid :
      (g : ℕ) (event : MonitorEvent)
      → Returns (λ _ s'. IsValid (core s')) (monitor_lifecycle d g event s)
  unfolding monitor_lifecycle pure
  monitor_lifecycle-IsValid g (core_exited termination) = automatic_restore-IsValid g _ _
  monitor_lifecycle-IsValid g (protection_failed failure) = automatic_restore-IsValid g _ _
  monitor_lifecycle-IsValid g context_done = v
