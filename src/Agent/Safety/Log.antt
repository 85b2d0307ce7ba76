-- ===== src/Agent/Safety/Log.antt =====
-- internal/agent/controller.go: what the order of the controller's calls must be.
use overseas.Base.{arith, ◌+◌, ℕ, Bool, true, false, List, [], ◌∷◌, ◌≡◌, Option}
use overseas.Agent.Status.{Status}
use overseas.Agent.Env.{
  Call, protected, routed, restored, reconciled, core_started, core_stopped, MonitorTask, attending,
  TransitionKind, Sys,
}

-- May a core process run after these calls? The newest call stands first.
abbrev pub may_run : List Call → Bool
may_run [] = false
may_run (core_started true proven ∷ l) = true
may_run (core_started false true ∷ l) = may_run l
may_run (core_started false false ∷ l) = true
may_run (core_stopped true ∷ l) = false
may_run (core_stopped false ∷ l) = may_run l
may_run (_ ∷ l) = may_run l

-- May the machine be changed since the network was last given back? Reading it changes nothing.
abbrev pub is_dirty : List Call → Bool
is_dirty [] = false
is_dirty (protected done ∷ l) = true
is_dirty (routed done ∷ l) = true
is_dirty (core_started done proven ∷ l) = true
is_dirty (restored true ∷ l) = false
is_dirty (reconciled true ∷ l) = false
is_dirty (_ ∷ l) = is_dirty l

-- How often was the machine changed?
abbrev pub changes : List Call → ℕ
changes [] = 0
changes (protected done ∷ l) = changes l + 1
changes (routed done ∷ l) = changes l + 1
changes (core_started done proven ∷ l) = changes l + 1
changes (_ ∷ l) = changes l

-- The ordinary network comes back, and a new core is started, only while no core may run.
abbrev pub IsOrdered : List Call → Type 0
IsOrdered [] = Unit
IsOrdered (restored done ∷ l) = (may_run l ≡ false) × IsOrdered l
IsOrdered (reconciled done ∷ l) = (may_run l ≡ false) × IsOrdered l
IsOrdered (core_started ok proven ∷ l) = (may_run l ≡ false) × IsOrdered l
IsOrdered (_ ∷ l) = IsOrdered l

-- The part of the state that the traces and the diagnostics leave alone.
pub record Core (N I : Type 0) : Type 0 where
  pub status : Status
  pub transition : Option TransitionKind
  pub generation : ℕ
  pub process_started : Bool
  pub process_instance : Option I
  pub snapshot : Option N
  pub reconciled : Bool
  pub monitor_done : Bool
  pub task : MonitorTask
  pub calls : List Call

module _ {W N I : Type 0} where
  abbrev pub core : Sys W N I → Core N I
  core s = record {
    status = s.status;
    transition = s.transition;
    generation = s.generation;
    process_started = s.process_started;
    process_instance = s.process_instance;
    snapshot = s.snapshot;
    reconciled = s.reconciled;
    monitor_done = s.monitor_done;
    task = s.task;
    calls = s.calls;
  }

  -- A predicate of the core, of a state.
  abbrev pub On : (Core N I → Type 0) → Sys W N I → Type 0
  On P s = P (core s)

-- What an operation holds while it runs: its generation and the fields that it will publish over.
pub record Held (N I : Type 0) : Type 0 where
  pub generation : ℕ
  pub process_started : Bool
  pub process_instance : Option I
  pub snapshot : Option N
  pub reconciled : Bool

module _ {N I : Type 0} where
  abbrev pub held : Core N I → Held N I
  held c = record {
    generation = c.generation;
    process_started = c.process_started;
    process_instance = c.process_instance;
    snapshot = c.snapshot;
    reconciled = c.reconciled;
  }

  -- Between the calls of an operation: a core may run only if `owned` says that it will be stopped.
  pub record IsRunning (h : Held N I) (owned : Bool) (c : Core N I) : Type 0 where
    pub ordered : IsOrdered c.calls
    pub live : may_run c.calls ≡ true → owned ≡ true
    pub kept : held c ≡ h
    pub unwatched : c.monitor_done ≡ false

  -- No core may run, and the changes of the machine are as many as `Before` says.
  pub record IsUntouched (Before : ℕ → Type 0) (h : Held N I) (c : Core N I) : Type 0 where
    pub running : IsRunning h false c
    pub untouched : Before (changes c.calls)

  -- No core may run, and the network was given back.
  pub record IsClean (h : Held N I) (c : Core N I) : Type 0 where
    pub running : IsRunning h false c
    pub clean : is_dirty c.calls ≡ false

  -- The same where the runtime monitor may still be there: somebody closes its channel.
  pub record IsEntering (h : Held N I) (owned : Bool) (c : Core N I) : Type 0 where
    pub ordered : IsOrdered c.calls
    pub live : may_run c.calls ≡ true → owned ≡ true
    pub kept : held c ≡ h
    pub attended : c.monitor_done ≡ true → c.task ≡ attending

  pub IsRunning-IsEntering :
      {h : Held N I} {owned : Bool} {c : Core N I} → IsRunning h owned c → IsEntering h owned c
  IsRunning-IsEntering r = ground arith
