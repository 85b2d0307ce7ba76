-- ===== src/Agent/Restore/Failure.antt =====
-- internal/agent/controller.go: `restoreAfterFailure`, and what every outcome of a connection attempt
-- says of the machine.
use overseas.Base.{
  ℕ, Bool, true, false, Option, none, ◌≡◌, refl, arith, is_some, ◌&&◌, Bool-cases, inl, inr,
}
use overseas.Base.Proc.{Sat, Sat-pure, Sat-bind, Sat-weaken}
use overseas.AccessModel.Model.{ConnectionState, prepared, connected, failed_safe}
use overseas.Agent.Status.{
  ErrorCode, no_error, automatic_restore_failed, safe_failure, failed_safe_status,
}
use overseas.Agent.Env.{PreparedNetwork, Deps, Sys}
use overseas.Agent.Restore.{
  DisconnectOutcome, ConnectOutcome, conclude_failure, restore_after_failure, to_stop,
}
use overseas.Agent.Restore.Safety.{IsGivenBack, restore_transaction-IsGivenBack}
use overseas.Agent.Safety.Log.{
  Held, On, is_dirty, changes, IsClean, IsRunning, IsEntering, may_run, IsOrdered,
}
use overseas.Agent.Safety.Quiet.{
  quiet_then, trace_start-IsQuiet, trace_success-IsQuiet, trace_failure-IsQuiet,
}

-- A code that a failed attempt reports.
abbrev pub IsError : ErrorCode → Type 0
IsError no_error = ⊥
IsError _ = Unit

module _ {N I : Type 0} where
  -- The three ways in which an attempt can end.
  abbrev pub Shape : ConnectionState → ConnectOutcome N I → Type 0
  Shape connected o =
      (o.process_started ≡ true)
      × (is_some o.instance_handle ≡ true)
      × (is_some o.snapshot ≡ true)
      × (is_some o.prepared ≡ true)
      × (o.status.error_code ≡ no_error)
  Shape prepared o =
      (o.process_started ≡ false)
      × (is_some o.instance_handle ≡ false)
      × (is_some o.snapshot ≡ false)
      × IsError o.status.error_code
  Shape failed_safe o =
      (o.process_started ≡ true → is_some o.instance_handle ≡ true)
      × (o.is_restored ≡ false)
      × (o.status.error_code ≡ automatic_restore_failed)
  Shape _ o = ⊥

module _ {W N I : Type 0} where
  -- An attempt of generation `g` has ended with the outcome `o`: where it ended as `prepared` without
  -- a restoration, the changes of the machine are as many as `Before` says; where it restored, the
  -- network was given back after the last of them.
  pub record IsSettled (Before : ℕ → Type 0) (g : ℕ) (o : ConnectOutcome N I) (s : Sys W N I)
      : Type 0 where
    pub ordered : IsOrdered s.calls
    pub owned : may_run s.calls ≡ true → o.process_started ≡ true
    pub same_generation : s.generation ≡ g
    pub unwatched : s.monitor_done ≡ false
    pub shape : Shape o.status.state o
    pub untouched : o.status.state ≡ prepared → o.is_restored ≡ false → Before (changes s.calls)
    pub restored : o.is_restored ≡ true → is_dirty s.calls ≡ false

module _ {W N I : Type 0} (d : Deps W N I) {B : ℕ → Type 0} {h : Held N I} where
  restored-IsSettled :
      (code : ErrorCode) (ready : Option PreparedNetwork) (s : Sys W N I)
      → IsError code
      → On (IsClean h) s
      → IsSettled B h.generation
          (record {
            status = safe_failure code;
            instance_handle = none;
            process_started = false;
            is_restored = true;
            snapshot = none;
            prepared = ready;
          })
          s
  unfolding safe_failure
  restored-IsSettled code ready s e r = record {
    ordered = r.running.ordered;
    owned = λ l. r.running.live l;
    same_generation = ground arith;
    unwatched = r.running.unwatched;
    shape = (refl, refl, refl, e);
    untouched = λ _ no. cc;
    restored = λ _. r.clean;
  }

  unrestored-IsSettled :
      (running : Bool) (i : Option I) (snapshot : Option N) (ready : Option PreparedNetwork)
      (s : Sys W N I)
      → On (IsRunning h (is_some (to_stop d running i))) s
      → IsSettled B h.generation
          (record {
            status = failed_safe_status;
            instance_handle = i;
            process_started = running && is_some i;
            is_restored = false;
            snapshot = snapshot;
            prepared = ready;
          })
          s
  unfolding failed_safe_status
  unrestored-IsSettled running i snapshot ready s r = ground arith

  conclude_failure-IsSettled :
      (g t : ℕ) (code : ErrorCode) (ready : Option PreparedNetwork) (running : Bool) (i : Option I)
      (snapshot : Option N) (o : DisconnectOutcome)
      → IsError code
      → Sat
          (IsGivenBack h (is_some (to_stop d running i)) o)
          (conclude_failure d g t code ready running i snapshot o)
          (IsSettled B h.generation)
  unfolding conclude_failure
  conclude_failure-IsSettled g t code ready running i snapshot o e =
      elim (Bool-cases o.is_restored) [
        | inl yes_restored ↦ rw yes_restored (
            Sat-weaken {P = On (IsClean h)} _
              (λ s r. record { running = ground arith; clean = r.clean refl }) (λ a s q. q)
              (quiet_then (IsClean h) _ _ (trace_success-IsQuiet d g _ _ _ _ _ _)
                λ _. Sat-pure _ (λ s r. restored-IsSettled code ready s e r)))
        | inr unrestored ↦ rw unrestored (
            Sat-weaken {P = On (IsRunning h (is_some (to_stop d running i)))} _
              (λ s r. ground arith) (λ a s q. q)
              (quiet_then (IsRunning h (is_some (to_stop d running i))) _ _
                (trace_failure-IsQuiet d g _ _ _ _ _ _)
                λ _. Sat-pure _ (unrestored-IsSettled running i snapshot ready)))
      ]

  pub restore_after_failure-IsSettled :
      (g : ℕ) (code : ErrorCode) (ready : Option PreparedNetwork) (running : Bool) (i : Option I)
      (snapshot : Option N)
      → IsError code
      → Sat
          (On (IsEntering h (is_some (to_stop d running i))))
          (restore_after_failure d g code ready running i snapshot)
          (IsSettled B h.generation)
  unfolding restore_after_failure
  restore_after_failure-IsSettled g code ready running i snapshot e =
      quiet_then (IsEntering h (is_some (to_stop d running i))) _ _ (trace_start-IsQuiet d g _ _ _)
        λ t.
          Sat-bind _ _ (restore_transaction-IsGivenBack d g running i snapshot)
            λ o. conclude_failure-IsSettled g t code ready running i snapshot o e
