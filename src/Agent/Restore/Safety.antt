-- ===== src/Agent/Restore/Safety.antt =====
-- internal/agent/controller.go: the restoration stops the core before it gives the network back.
use overseas.Base.{
  List, ◌∷◌, ℕ, String, Bool, true, false, Option, none, some, ◌≡◌, refl, arith, not, is_some, ◌&&◌,
  if◌then◌else◌, Bool-cases, inl, inr,
}
use overseas.Base.Proc.{Sat, Sat-pure, Sat-bind, Sat-if, Sat-weaken, Returns, Returns-weaken}
use overseas.AccessModel.Model.{prepared, failed_safe}
use overseas.Trace.Event.{Residue, residue_is_zero}
use overseas.Agent.Status.{prepared_status, failed_safe_status}
use overseas.Agent.Env.{
  Call, restored, reconciled, GoError, Result, ok, err, Termination, NetworkManager, Deps, Sys,
  attending,
}
use overseas.Agent.Restore.{
  is_nil, DisconnectOutcome, unrestored, restored_with, stop_lifecycle_monitor, conclude_stop,
  stop_instance, fail_restore, restore_network, judge_residue, verify_residue, conclude_restore,
  restore_with, restore_ordinary_network, restore_if_proven, stop_then_restore, to_stop,
  restore_transaction, await_monitor,
}
use overseas.Agent.Safety.Log.{
  IsClean, is_dirty, Core, Held, core, held, On, IsRunning, IsEntering, may_run, IsOrdered,
}
use overseas.Agent.Safety.Quiet.{
  quiet_then, log_then, on_world-IsQuiet, trace_start-IsQuiet, trace_success-IsQuiet,
  trace_failure-IsQuiet,
}

module _ {W N I : Type 0} where
  -- What an operation leaves: the ordinary network with no core, or a core that is still owned.
  pub record IsRestored (h : Held N I) (owned : Bool) (o : DisconnectOutcome) (s : Sys W N I)
      : Type 0 where
    pub running : IsRunning h (not o.is_restored && owned) (core s)
    pub state : o.status.state ≡ (if o.is_restored then prepared else failed_safe)
    pub code : o.is_restored ≡ false → o.status ≡ failed_safe_status

  -- What a restoration leaves: where it succeeds, the network was given back after the last change.
  pub record IsGivenBack (h : Held N I) (owned : Bool) (o : DisconnectOutcome) (s : Sys W N I)
      : Type 0 where
    pub running : IsRunning h (not o.is_restored && owned) (core s)
    pub state : o.status.state ≡ (if o.is_restored then prepared else failed_safe)
    pub clean : o.is_restored ≡ true → is_dirty s.calls ≡ false
    pub code : o.is_restored ≡ false → o.status ≡ failed_safe_status

module _ {W N I : Type 0} {h : Held N I} where
  IsGivenBack-weaken :
      {owned : Bool} (o : DisconnectOutcome) (s : Sys W N I)
      → IsGivenBack h false o s
      → IsGivenBack h owned o s
  IsGivenBack-weaken o s r = ground arith

  unrestored-IsGivenBack :
      {owned : Bool} (e : Option GoError) (s : Sys W N I)
      → On (IsRunning h owned) s
      → IsGivenBack h owned (unrestored e) s
  unfolding unrestored failed_safe_status
  unrestored-IsGivenBack e s r = ground arith

  pub restored_with-IsGivenBack :
      (message : String) (s : Sys W N I)
      → On (IsClean h) s
      → IsGivenBack h false (restored_with message) s
  unfolding restored_with prepared_status
  restored_with-IsGivenBack message s r = ground arith

-- What the call of `Restore` or `Reconcile` leaves, by its error.
abbrev IsGiven : {N I : Type 0} → Held N I → Option GoError → Core N I → Type 0
IsGiven h e c = IsRunning h false c × (is_nil e ≡ true → is_dirty c.calls ≡ false)

given-clean :
    (e : Option GoError) (l : List Call)
    → (is_nil e ≡ true → is_dirty (restored (is_nil e) ∷ l) ≡ false)
      × (is_nil e ≡ true → is_dirty (reconciled (is_nil e) ∷ l) ≡ false)
given-clean none l = (λ _. refl, λ _. refl)
given-clean (some e) l = (λ h. cc, λ h. cc)

module _ {W N I : Type 0} (d : Deps W N I) {h : Held N I} where
  fail_restore-IsGivenBack :
      {owned : Bool} (g : ℕ) (stage : String) (t : ℕ) (message : String) (e : Option GoError)
      (r : Option Residue)
      → Sat (On (IsRunning h owned)) (fail_restore d g stage t message e r) (IsGivenBack h owned)
  unfolding fail_restore
  fail_restore-IsGivenBack {owned = owned} g stage t message e r =
      quiet_then (IsRunning h owned) _ _ (trace_failure-IsQuiet d g _ _ _ _ _ _)
        λ _. Sat-pure (unrestored e) (unrestored-IsGivenBack e)

  fail_residue-IsGivenBack :
      (g : ℕ) (stage : String) (t : ℕ) (message : String) (e : Option GoError) (r : Option Residue)
      → Sat (On (IsClean h)) (fail_restore d g stage t message e r) (IsGivenBack h false)
  fail_residue-IsGivenBack g stage t message e r =
      Sat-weaken _ (λ s p. p.running) (λ a s q. q) (fail_restore-IsGivenBack g stage t message e r)

  judge_residue-IsGivenBack :
      (g t : ℕ) (r : Result Residue)
      → Sat (On (IsClean h)) (judge_residue d g t r) (IsGivenBack h false)
  unfolding judge_residue
  judge_residue-IsGivenBack g t (err e) = fail_residue-IsGivenBack g _ t _ _ _
  judge_residue-IsGivenBack g t (ok r) =
      Sat-if (not (residue_is_zero r)) _ _ (λ _. fail_residue-IsGivenBack g _ t _ _ _)
        λ _.
          quiet_then (IsClean h) _ _ (trace_success-IsQuiet d g _ _ _ _ _ _)
            λ _. Sat-pure _ (restored_with-IsGivenBack _)

  verify_residue-IsGivenBack :
      (g : ℕ) (reporter : Option (W → Result Residue × W))
      → Sat (On (IsClean h)) (verify_residue d g reporter) (IsGivenBack h false)
  unfolding verify_residue
  verify_residue-IsGivenBack g none = Sat-pure _ (restored_with-IsGivenBack _)
  verify_residue-IsGivenBack g (some reporter) =
      quiet_then (IsClean h) _ _ (trace_start-IsQuiet d g _ _ _) λ t.
        quiet_then (IsClean h) _ _ (on_world-IsQuiet reporter) λ r.
          log_then (IsClean h) (IsClean h) _ _ (λ c p. ground arith)
            (judge_residue-IsGivenBack g t r)

  restore_network-IsGiven :
      (n : NetworkManager W N) (snapshot : Option N)
      → Sat (On (IsRunning h false)) (restore_network d n snapshot) (λ e. On (IsGiven h e))
  unfolding restore_network
  restore_network-IsGiven n none =
      quiet_then (IsRunning h false) _ _ (on_world-IsQuiet n.reconcile) λ e.
        log_then (IsRunning h false) (IsGiven h e) _ _
          (λ c p. (ground arith, (given-clean e c.calls).1)) (Sat-pure e (λ s p. p))
  restore_network-IsGiven n (some snapshot) =
      quiet_then (IsRunning h false) _ _ (on_world-IsQuiet (n.restore snapshot)) λ e.
        log_then (IsRunning h false) (IsGiven h e) _ _
          (λ c p. (ground arith, (given-clean e c.calls).0)) (Sat-pure e (λ s p. p))

  conclude_restore-IsGivenBack :
      (g t : ℕ) (n : NetworkManager W N) (e : Option GoError)
      → Sat (On (IsGiven h e)) (conclude_restore d g t n e) (IsGivenBack h false)
  unfolding conclude_restore
  conclude_restore-IsGivenBack g t n (some e) =
      Sat-weaken _ (λ s p. p.0) (λ a s q. q) (fail_restore-IsGivenBack g _ t _ _ _)
  conclude_restore-IsGivenBack g t n none =
      Sat-weaken {P = On (IsClean h)} _ (λ s p. record { running = p.0; clean = p.1 refl })
        (λ a s q. q)
        (quiet_then (IsClean h) _ _ (trace_success-IsQuiet d g _ _ _ _ _ _)
          λ _. verify_residue-IsGivenBack g n.residue)

  restore_with-IsGivenBack :
      (g t : ℕ) (n : Option (NetworkManager W N)) (snapshot : Option N)
      → Sat (On (IsRunning h false)) (restore_with d g t n snapshot) (IsGivenBack h false)
  unfolding restore_with
  restore_with-IsGivenBack g t none snapshot = fail_restore-IsGivenBack g _ t _ _ _
  restore_with-IsGivenBack g t (some n) snapshot =
      Sat-bind _ _ (restore_network-IsGiven n snapshot) λ e. conclude_restore-IsGivenBack g t n e

  pub restore_ordinary_network-IsGivenBack :
      (g : ℕ) (snapshot : Option N)
      → Sat (On (IsRunning h false)) (restore_ordinary_network d g snapshot) (IsGivenBack h false)
  unfolding restore_ordinary_network
  restore_ordinary_network-IsGivenBack g snapshot =
      quiet_then (IsRunning h false) _ _ (trace_start-IsQuiet d g _ _ _)
        λ t. restore_with-IsGivenBack g t d.network snapshot

  -- After the stop a core may run only if the stop did not prove its end.
  pub stop_instance-IsRunning :
      (g : ℕ) (i : I)
      → Sat (On (IsRunning h true)) (stop_instance d g i) (λ t. On (IsRunning h (not t.proven)))
  unfolding stop_instance conclude_stop
  stop_instance-IsRunning g i =
      quiet_then (IsRunning h true) _ _ (trace_start-IsQuiet d g _ _ _) λ t.
        quiet_then (IsRunning h true) _ _ (on_world-IsQuiet (d.stop i)) λ e.
          log_then (IsRunning h true) (IsRunning h (not e.proven)) _ _ (λ c p. ground arith)
            (Sat-if (not e.proven) _ _
              (λ _.
                quiet_then (IsRunning h (not e.proven)) _ _ (trace_failure-IsQuiet d g _ _ _ _ _ _)
                  λ _. Sat-pure e (λ s p. p))
              (λ _.
                quiet_then (IsRunning h (not e.proven)) _ _ (trace_success-IsQuiet d g _ _ _ _ _ _)
                  λ _. Sat-pure e (λ s p. p)))

  restore_if_proven-IsGivenBack :
      (g : ℕ) (snapshot : Option N) (t : Termination)
      → Sat
          (On (IsRunning h (not t.proven)))
          (restore_if_proven d g snapshot t)
          (IsGivenBack h true)
  unfolding restore_if_proven
  restore_if_proven-IsGivenBack g snapshot t = elim (Bool-cases t.proven) [
    | inl yes_proven ↦ rw yes_proven (
        Sat-weaken _ (λ s p. p) IsGivenBack-weaken
          (restore_ordinary_network-IsGivenBack g snapshot))
    | inr unproven ↦ rw unproven (Sat-pure _ (unrestored-IsGivenBack t.error))
  ]

  stop_then_restore-IsGivenBack :
      (g : ℕ) (i : Option I) (snapshot : Option N)
      → Sat
          (On (IsRunning h (is_some i)))
          (stop_then_restore d g i snapshot)
          (IsGivenBack h (is_some i))
  unfolding stop_then_restore
  stop_then_restore-IsGivenBack g none snapshot = restore_ordinary_network-IsGivenBack g snapshot
  stop_then_restore-IsGivenBack g (some i) snapshot =
      Sat-bind _ _ (stop_instance-IsRunning g i) λ t. restore_if_proven-IsGivenBack g snapshot t

module _ {W N I : Type 0} {h : Held N I} where
  -- The wait for the runtime monitor ends where a goroutine attends it.
  stop_lifecycle_monitor-IsRunning :
      (owned : Bool)
      → Sat {S = Sys W N I}
          (On (IsEntering h owned))
          stop_lifecycle_monitor
          (λ _. On (IsRunning h owned))
  unfolding stop_lifecycle_monitor await_monitor
  stop_lifecycle_monitor-IsRunning owned = record { at = λ s p. ground arith }

module _ {W N I : Type 0} (d : Deps W N I) {h : Held N I} where
  pub restore_transaction-IsGivenBack :
      (g : ℕ) (started : Bool) (i : Option I) (snapshot : Option N)
      → Sat
          (On (IsEntering h (is_some (to_stop d started i))))
          (restore_transaction d g started i snapshot)
          (IsGivenBack h (is_some (to_stop d started i)))
  unfolding restore_transaction
  restore_transaction-IsGivenBack g started i snapshot =
      Sat-bind _ _ (stop_lifecycle_monitor-IsRunning _)
        λ _. stop_then_restore-IsGivenBack d g (to_stop d started i) snapshot

module _ {W N I : Type 0} (d : Deps W N I) {h : Held N I} where
  pub restore_transaction-IsRestored :
      (g : ℕ) (started : Bool) (i : Option I) (snapshot : Option N)
      → Sat
          (On (IsEntering h (is_some (to_stop d started i))))
          (restore_transaction d g started i snapshot)
          (IsRestored h (is_some (to_stop d started i)))
  restore_transaction-IsRestored g started i snapshot =
      Sat-weaken _ (λ s p. p)
        (λ o s r. record { running = r.running; state = r.state; code = r.code })
        (restore_transaction-IsGivenBack d g started i snapshot)

module _ {W N I : Type 0} {h : Held N I} {owned : Bool} {o : DisconnectOutcome}
    {s : Sys W N I} where
  IsGivenBack-facts :
      IsGivenBack h owned o s
      → IsOrdered s.calls
        × ((o.is_restored && may_run s.calls) ≡ false)
        × (s.generation ≡ h.generation)
        × (s.monitor_done ≡ false)
  IsGivenBack-facts r = ground arith

module _ {W N I : Type 0} (d : Deps W N I) where
  -- Where the calls so far are ordered, every core that may run is the instance that is handed over,
  -- and the monitor's channel is attended if there is one: `restoreTransaction` ends, in the same
  -- generation and without a monitor; the calls stay ordered, so that the network was given back
  -- only while no core could run; and where it reports success no core may run.
  pub restore_transaction-stops :
      (g : ℕ) (started : Bool) (i : Option I) (snapshot : Option N) (s : Sys W N I)
      → IsOrdered s.calls
      → (may_run s.calls ≡ true → is_some (to_stop d started i) ≡ true)
      → (s.monitor_done ≡ true → s.task ≡ attending)
      → Returns
          (λ o s'.
            IsOrdered s'.calls
            × ((o.is_restored && may_run s'.calls) ≡ false)
            × (s'.generation ≡ s.generation)
            × (s'.monitor_done ≡ false))
          (restore_transaction d g started i snapshot s)
  restore_transaction-stops g started i snapshot s ordered owned attended =
      Returns-weaken (restore_transaction d g started i snapshot s) (λ o s' r. IsGivenBack-facts r)
        ((restore_transaction-IsGivenBack d {h = held (core s)} g started i snapshot).at s
          (record { ordered = ordered; live = owned; kept = refl; attended = attended }))
