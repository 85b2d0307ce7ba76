-- ===== src/LineProbe/Scheduler.antt =====
-- internal/lineprobe/scheduler.go: rounds of probes for the connected generation. The scheduler's mutex
-- makes each critical section one step; goroutines are the list `flights` of rounds under way, and
-- a session is named by a number, since the code compares sessions by identity.
pub mod Annotate
pub mod Shown
pub mod Histories
pub mod Rounds
pub mod SingleRound
pub mod Demo
mod Tests
use overseas.Base.{
  ℕ, ℤ, pos, ◌+◌, String, Bool, true, false, Option, none, some, List, [], ◌∷◌, ◌&&◌, ◌||◌, not,
  ltb, leb, ◌==◌, if◌then◌else◌, map, zero, suc,
}
use overseas.Agent.Env.{LineQuality}
use overseas.LineProbe.Aggregate.{ProbeResult, Aggregate, update}
use overseas.LineProbe.Probe.{Target, targets, round_budget}

pub record Snapshot : Type 0 where
  pub generation : ℕ
  pub results : List ProbeResult

pub record Session : Type 0 where
  pub serial : ℕ
  pub generation : ℕ
  pub canceled : Bool  -- its context has ended
  pub active : Option ℕ  -- the round under way
  pub aggregate : Aggregate

-- A round waits for answers, or publishes its quality.
pub data Phase : Type 0 where
  collecting : List ProbeResult → List Bool → Phase
  publishing : LineQuality → List ProbeResult → Phase

pub record Flight : Type 0 where
  pub round : ℕ
  pub session : ℕ
  pub generation : ℕ
  pub phase : Phase

pub record Scheduler : Type 0 where
  pub current : Option Session
  pub last : Snapshot
  pub flights : List Flight
  pub next_serial : ℕ
  pub next_round : ℕ

abbrev pub empty_aggregate : Aggregate
empty_aggregate = record { failures = λ key. 0; quality = none }

-- `NewScheduler`
abbrev pub new_scheduler : Scheduler
new_scheduler = record {
  current = none;
  last = record { generation = 0; results = [] };
  flights = [];
  next_serial = 0;
  next_round = 0;
}

-- What a round holds of its targets before they answer.
abbrev pub unanswered : ℕ → Target → ProbeResult
unanswered now target = record {
  id = target.id;
  is_reachable = false;
  http_status = pos 0;
  latency_ms = pos round_budget;
  error_code = "timeout";
  checked_at = now;
  consecutive_failures = none;
}

-- `beginLocked`, for the present session.
unfoldable pub begin_new : ℕ → Session → Scheduler → Scheduler
begin_new now session s = record s {
  current = some (record session { active = some s.next_round });
  flights =
      record {
        round = s.next_round;
        session = session.serial;
        generation = session.generation;
        phase = collecting (map (unanswered now) targets) (map (λ t. false) targets);
      }
      ∷ s.flights;
  next_round = s.next_round + 1;
}

unfoldable pub begin_with : ℕ → Session → Option ℕ → Scheduler → Scheduler
begin_with now session (some round) s = s
begin_with now session none s = begin_new now session s

abbrev pub is_current_generation : ℕ → Option Session → Bool
is_current_generation generation none = false
is_current_generation generation (some c) = leb generation c.generation

-- `Start`
unfoldable pub start : ℕ → Bool → ℕ → Scheduler → Scheduler
start now context_ended generation s =
    if context_ended || is_current_generation generation s.current
    then s
    else begin_new now
        (record {
          serial = s.next_serial;
          generation = generation;
          canceled = false;
          active = none;
          aggregate = empty_aggregate;
        })
        (record s {
          last = record { generation = generation; results = [] };
          next_serial = s.next_serial + 1;
        })

-- The session that a goroutine of session `serial` finds, if it is still there and not canceled.
abbrev pub live_session : ℕ → Option Session → Option Session
live_session serial none = none
live_session serial (some c) = if (c.serial == serial) && not c.canceled then some c else none

unfoldable pub begin_live : ℕ → Option Session → Scheduler → Scheduler
begin_live now none s = s
begin_live now (some c) s = begin_with now c c.active s

-- The interval's timer of session `serial`.
unfoldable pub tick : ℕ → ℕ → Scheduler → Scheduler
tick now serial s = begin_live now (live_session serial s.current) s

abbrev pub uncanceled : Option Session → Option Session
uncanceled none = none
uncanceled (some c) = if c.canceled then none else some c

-- The critical section of `Manual`; its waits change nothing.
unfoldable pub manual : ℕ → Bool → Scheduler → Scheduler
manual now context_ended s = if context_ended then s else begin_live now (uncanceled s.current) s

unfoldable pub cancel_current : Option Session → Option Session
cancel_current none = none
cancel_current (some c) = some (record c { canceled = true })

-- The lifetime of the connected generation ends.
unfoldable pub cancel : Scheduler → Scheduler
cancel s = record s { current = cancel_current s.current }

-- `answers`: the result of the target at `index`, the first time.
unfoldable pub receive :
    ℕ → ProbeResult → List ProbeResult → List Bool → List ProbeResult × List Bool
receive index r [] seen = ([], seen)
receive index r (x ∷ xs) [] = (x ∷ xs, [])
receive zero r (x ∷ xs) (true ∷ seen) = (x ∷ xs, true ∷ seen)
receive zero r (x ∷ xs) (false ∷ seen) = (record r { id = x.id } ∷ xs, true ∷ seen)
receive (suc index) r (x ∷ xs) (b ∷ seen) =
    let (ys, later) = receive index r xs seen in (x ∷ ys, b ∷ later)

unfoldable pub receive_phase : ℕ → ProbeResult → Phase → Phase
receive_phase index r (collecting results seen) =
    let (answered, later) = receive index r results seen in collecting answered later
receive_phase index r (publishing q results) = publishing q results

unfoldable pub receive_flight : ℕ → ℕ → ProbeResult → List Flight → List Flight
receive_flight round index r [] = []
receive_flight round index r (f ∷ fs) =
    let rest = receive_flight round index r fs in
    if f.round == round then record f { phase = receive_phase index r f.phase } ∷ fs else f ∷ rest

unfoldable pub answer : ℕ → ℕ → ProbeResult → Scheduler → Scheduler
answer round index r s = record s { flights = receive_flight round index r s.flights }

unfoldable pub find_flight : ℕ → List Flight → Option Flight
find_flight round [] = none
find_flight round (f ∷ fs) = if f.round == round then some f else find_flight round fs

unfoldable pub drop_flight : ℕ → List Flight → List Flight
drop_flight round [] = []
drop_flight round (f ∷ fs) =
    let rest = drop_flight round fs in if f.round == round then rest else f ∷ rest

-- The first critical section of a round whose answers are in, or whose time is over.
unfoldable pub judge_live : Flight → List ProbeResult → Option Session → Scheduler → Scheduler
judge_live f results none s = record s { flights = drop_flight f.round s.flights }
judge_live f results (some c) s =
    let (quality, aggregate, annotated) = update results c.aggregate in
    record s {
      current = some (record c { aggregate = aggregate });
      flights = record f { phase = publishing quality annotated } ∷ drop_flight f.round s.flights;
    }

-- The second critical section: `accepted` is what `publish` answered.
unfoldable pub conclude_live :
    Flight → List ProbeResult → Bool → Option Session → Scheduler → Scheduler
conclude_live f results accepted none s = record s { flights = drop_flight f.round s.flights }
conclude_live f results accepted (some c) s = record s {
  current = some (record c { active = none });
  last = if accepted then record { generation = c.generation; results = results } else s.last;
  flights = drop_flight f.round s.flights;
}

unfoldable pub advance_phase : Flight → Phase → Bool → Scheduler → Scheduler
advance_phase f (collecting results seen) accepted s =
    judge_live f results (live_session f.session s.current) s
advance_phase f (publishing quality results) accepted s =
    conclude_live f results accepted (live_session f.session s.current) s

unfoldable pub advance_found : Option Flight → Bool → Scheduler → Scheduler
advance_found none accepted s = s
advance_found (some f) accepted s = advance_phase f f.phase accepted s

-- The next critical section of a round.
unfoldable pub advance : ℕ → Bool → Scheduler → Scheduler
advance round accepted s = advance_found (find_flight round s.flights) accepted s
