-- ===== src/LineProbe/Scheduler/SingleRound.antt =====
-- internal/lineprobe/scheduler.go: every history keeps to one round per session.
use mathlib.Core.Path.{subst}
use overseas.Base.{
  ℕ, ◌+◌, ◌≤◌, Bool, Option, none, some, List, ◌&&◌, ◌||◌, not, ◌==◌, if◌then◌else◌, if_both,
  if_true, if_false, ◌≡◌, refl, sym, ap, ◌∙◌, arith, inl, inr, Bool-cases,
}
use overseas.LineProbe.Aggregate.{ProbeResult}
use overseas.LineProbe.Scheduler.{
  Session, Phase, collecting, publishing, Flight, Scheduler, new_scheduler, begin_with,
  is_current_generation, start, live_session, begin_live, tick, uncanceled, manual, cancel_current,
  cancel, receive_flight, answer, find_flight, drop_flight, judge_live, conclude_live,
  advance_phase, advance_found, advance,
}
use overseas.LineProbe.Scheduler.Histories.{
  SchedulerStep, starts, ticks, asks, cancels, answers, advances, SchedulerReach, at_start,
  then_step,
}
use overseas.LineProbe.Scheduler.Rounds.{
  rounds_of, IsIdle, IsSingle, receive_flight-rounds, drop_flight-le, find-drop, begin_new-IsSingle,
  current-idle,
}

begin_live-IsSingle :
    (now : ℕ) (o : Option Session) (s : Scheduler)
    → ((c : Session) → o ≡ some c → s.current ≡ some c)
    → IsSingle s
    → IsSingle (begin_live now o s)
unfolding begin_live begin_with
begin_live-IsSingle now none s e p = p
begin_live-IsSingle now (some c) s e p = by_active c.active refl
  where
    by_active : (active : Option ℕ) → c.active ≡ active → IsSingle (begin_with now c active s)
    by_active (some round) h = p
    by_active none h =
        let (b, z) = current-idle s c (e c refl) p in
        begin_new-IsSingle now c s b (z h) p.single p.bounded

start-IsSingle :
    (now : ℕ) (ended : Bool) (g : ℕ) (s : Scheduler) → IsSingle s → IsSingle (start now ended g s)
unfolding start
start-IsSingle now ended g s p =
    if_both IsSingle (ended || is_current_generation g s.current) (λ _. p)
      (λ _.
        begin_new-IsSingle now _ _ (omega arith) (p.bounded s.next_serial (omega arith)) p.single
          (λ serial k. p.bounded serial (omega (arith, k))))

cancel-IsSingle : (s : Scheduler) → IsSingle s → IsSingle (cancel s)
unfolding cancel cancel_current
cancel-IsSingle s p = record {
  single = p.single;
  bounded = p.bounded;
  idle = canceled s.current p.idle;
}
  where
    canceled :
        (o : Option Session)
        → IsIdle o s.next_serial s.flights
        → IsIdle (cancel_current o) s.next_serial s.flights
    canceled none h = h
    canceled (some c) h = h

-- Fewer rounds, of the same session.
IsIdle-le :
    (o : Option Session) (bound : ℕ) (l m : List Flight)
    → ((serial : ℕ) → rounds_of serial m ≤ rounds_of serial l)
    → IsIdle o bound l
    → IsIdle o bound m
IsIdle-le none bound l m le h = h
IsIdle-le (some c) bound l m le (b, z) = (b, λ e. zero_of (le c.serial) (z e))
  where
    zero_of : {a b : ℕ} → a ≤ b → b ≡ 0 → a ≡ 0
    zero_of h k = omega (arith, h, k)

-- The flights are replaced by others, of which no session has more.
fewer-IsSingle :
    (s : Scheduler) (fs : List Flight)
    → ((serial : ℕ) → rounds_of serial fs ≤ rounds_of serial s.flights)
    → IsSingle s
    → IsSingle (record s { flights = fs })
fewer-IsSingle s fs le p = record {
  single = λ serial. omega (arith, le serial, p.single serial);
  bounded = λ serial k. omega (arith, le serial, p.bounded serial k);
  idle = IsIdle-le s.current s.next_serial s.flights fs le p.idle;
}

live-serial :
    (serial : ℕ) (o : Option Session) {c : Session}
    → live_session serial o ≡ some c
    → (o ≡ some c) × (c.serial ≡ serial)
live-serial serial none e = cc
live-serial serial (some b) {c} e = elim (Bool-cases ((b.serial == serial) && not b.canceled)) [
  | inl live ↦
      let same = some-eq (sym (if_true _ _ live) ∙ e) in
      let at : b.serial ≡ serial = ground (arith, live) in
      (ap some same, ap (λ (x : Session). x.serial) (sym same) ∙ at)
  | inr gone ↦ absurd (none-some (sym (if_false _ _ gone) ∙ e))
]
  where
    some-eq : {a b : Session} → some a ≡ some b → a ≡ b
    some-eq e = cc

    none-some : none ≡ some c → ⊥
    none-some e = cc

-- A flight of the scheduler, with what the search for it found.
module _ (s : Scheduler) (f : Flight)
    (drops : (serial : ℕ)
      → (if f.session == serial then 1 else 0) + rounds_of serial (drop_flight f.round s.flights)
        ≤ rounds_of serial s.flights) where
  dropped-le :
      (serial : ℕ) → rounds_of serial (drop_flight f.round s.flights) ≤ rounds_of serial s.flights
  dropped-le serial = drop_flight-le f.round serial s.flights

  judge_live-IsSingle :
      (l : List ProbeResult) (o : Option Session)
      → ((c : Session) → o ≡ some c → s.current ≡ some c)
      → IsSingle s
      → IsSingle (judge_live f l o s)
  unfolding judge_live
  judge_live-IsSingle l none e p = fewer-IsSingle s _ dropped-le p
  judge_live-IsSingle l (some c) e p =
      let (b, z) = current-idle s c (e c refl) p in
      record {
        single = λ serial. omega (arith, drops serial, p.single serial);
        bounded = λ serial k. omega (arith, drops serial, p.bounded serial k);
        idle = (b, λ h. zero_of (drops c.serial) (z h));
      }
    where
      zero_of : {a b : ℕ} → a ≤ b → b ≡ 0 → a ≡ 0
      zero_of h k = omega (arith, h, k)

  conclude_live-IsSingle :
      (l : List ProbeResult) (accepted : Bool) (o : Option Session)
      → ((c : Session) → o ≡ some c → (s.current ≡ some c) × (c.serial ≡ f.session))
      → IsSingle s
      → IsSingle (conclude_live f l accepted o s)
  unfolding conclude_live
  conclude_live-IsSingle l accepted none e p = fewer-IsSingle s _ dropped-le p
  conclude_live-IsSingle l accepted (some c) e p =
      let (present, own) = e c refl in
      let (b, z) = current-idle s c present p in
      record {
        single = λ serial. omega (arith, dropped-le serial, p.single serial);
        bounded = λ serial k. omega (arith, dropped-le serial, p.bounded serial k);
        idle = (b, λ h. ground (arith, own, drops c.serial, p.single c.serial));
      }

  advance_phase-IsSingle :
      (phase : Phase) (accepted : Bool) → IsSingle s → IsSingle (advance_phase f phase accepted s)
  unfolding advance_phase
  advance_phase-IsSingle (collecting l seen) accepted p =
      judge_live-IsSingle l _ (λ c h. (live-serial f.session s.current h).0) p
  advance_phase-IsSingle (publishing q l) accepted p =
      conclude_live-IsSingle l accepted _ (λ c h. live-serial f.session s.current h) p

advance_found-IsSingle :
    (round : ℕ) (s : Scheduler) (o : Option Flight) (accepted : Bool)
    → find_flight round s.flights ≡ o
    → IsSingle s
    → IsSingle (advance_found o accepted s)
unfolding advance_found
advance_found-IsSingle round s none accepted e p = p
advance_found-IsSingle round s (some f) accepted e p =
    advance_phase-IsSingle s f drops f.phase accepted p
  where
    drops :
        (serial : ℕ)
        → (if f.session == serial then 1 else 0) + rounds_of serial (drop_flight f.round s.flights)
          ≤ rounds_of serial s.flights
    drops serial =
        let (same, le) = find-drop round serial s.flights e in
        subst
          (λ n.
            (if f.session == serial then 1 else 0) + rounds_of serial (drop_flight n s.flights)
            ≤ rounds_of serial s.flights)
          (sym same) le

uncanceled-current : (o : Option Session) {c : Session} → uncanceled o ≡ some c → o ≡ some c
uncanceled-current none e = e
uncanceled-current (some b) e = ground arith

SchedulerStep-IsSingle : (s t : Scheduler) → IsSingle s → SchedulerStep s t → IsSingle t
unfolding tick manual answer advance
SchedulerStep-IsSingle s t p (starts now ended g h e) =
    subst IsSingle e (start-IsSingle now ended g s p)
SchedulerStep-IsSingle s t p (ticks now serial h e) =
    subst IsSingle e (begin_live-IsSingle now _ s (λ c k. (live-serial serial s.current k).0) p)
SchedulerStep-IsSingle s t p (asks now ended h e) = subst IsSingle e (
    if_both IsSingle ended (λ _. p)
      (λ _. begin_live-IsSingle now _ s (λ c. uncanceled-current s.current) p))
SchedulerStep-IsSingle s t p (cancels e) = subst IsSingle e (cancel-IsSingle s p)
SchedulerStep-IsSingle s t p (answers round index r e) =
    subst IsSingle e (fewer-IsSingle s _ same_le p)
  where
    same_le :
        (serial : ℕ)
        → rounds_of serial (receive_flight round index r s.flights) ≤ rounds_of serial s.flights
    same_le serial = omega (arith, receive_flight-rounds round index r serial s.flights)
SchedulerStep-IsSingle s t p (advances round accepted e) =
    subst IsSingle e (advance_found-IsSingle round s _ accepted refl p)

-- In every interleaving of starts, ticks, manual checks, cancellations, answers and rounds, no session
-- has two rounds under way, one that has not begun has none, and while the present session has no
-- active round, none of its rounds is left.
pub SchedulerReach-IsSingle : {s : Scheduler} → SchedulerReach new_scheduler s → IsSingle s
SchedulerReach-IsSingle at_start = record {
  single = λ serial. omega arith;
  bounded = λ serial k. refl;
  idle = tt;
}
SchedulerReach-IsSingle (then_step r st) = SchedulerStep-IsSingle _ _ (SchedulerReach-IsSingle r) st
