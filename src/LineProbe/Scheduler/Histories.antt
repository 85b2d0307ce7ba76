-- ===== src/LineProbe/Scheduler/Histories.antt =====
-- internal/lineprobe/scheduler.go: every history of the scheduler, over any interleaving of its callers
-- and rounds.
use mathlib.Core.Path.{subst}
use overseas.Base.{
  ◌⊎◌, all, ap, ℕ, ◌<◌, Bool, true, false, Option, none, some, List, [], ◌∷◌, ◌==◌, if_both, ◌≡◌,
  inl, inr, refl, sym, ◌∙◌, Bool-cases, if_true, if_false,
}
use overseas.LineProbe.Aggregate.{ProbeResult}
use overseas.LineProbe.Scheduler.{
  Snapshot, Session, Phase, collecting, publishing, Flight, Scheduler, new_scheduler, start, tick,
  manual, cancel_current, cancel, answer, find_flight, judge_live, conclude_live, advance_phase,
  advance_found, advance,
}
use overseas.LineProbe.Scheduler.Annotate.{update-results, update-valid, ids}
use overseas.LocalApi.Protocol.{valid_result, target_ids}
use overseas.LineProbe.Scheduler.Shown.{
  IsShown, IsFull, PhaseIsFull, AllFull, Follows, IsSound, receive_flight-AllFull,
  drop_flight-AllFull, start-IsSound, live_session-some, uncanceled-some, begin_live-IsSound,
  follows-some,
}

-- A step of the scheduler's callers, timers and rounds; no time is Go's zero time. What a probe
-- answers is not restricted.
pub data SchedulerStep (s t : Scheduler) : Type 0 where
  starts : (now : ℕ) (ended : Bool) (g : ℕ) → 0 < now → start now ended g s ≡ t → SchedulerStep s t
  ticks : (now serial : ℕ) → 0 < now → tick now serial s ≡ t → SchedulerStep s t
  asks : (now : ℕ) (ended : Bool) → 0 < now → manual now ended s ≡ t → SchedulerStep s t
  cancels : cancel s ≡ t → SchedulerStep s t
  answers : (round index : ℕ) (r : ProbeResult) → answer round index r s ≡ t → SchedulerStep s t
  advances : (round : ℕ) (accepted : Bool) → advance round accepted s ≡ t → SchedulerStep s t

pub data SchedulerReach (s : Scheduler) : Scheduler → Type 0 where
  at_start : SchedulerReach s s
  then_step : {t u : Scheduler} → SchedulerReach s t → SchedulerStep t u → SchedulerReach s u

-- A step that brings no invalid answer.
abbrev pub IsTrusted : {s t : Scheduler} → SchedulerStep s t → Type 0
IsTrusted (starts now ended g h e) = Unit
IsTrusted (ticks now serial h e) = Unit
IsTrusted (asks now ended h e) = Unit
IsTrusted (cancels e) = Unit
IsTrusted (answers round index r e) = valid_result r ≡ true
IsTrusted (advances round accepted e) = Unit

-- Every answer of the history is a valid result.
abbrev pub AllTrusted : {s t : Scheduler} → SchedulerReach s t → Type 0
AllTrusted at_start = Unit
AllTrusted (then_step h st) = AllTrusted h × IsTrusted st

module _ (trusted : Type 0) where
  find_flight-IsFull :
      (round : ℕ) (l : List Flight) {f : Flight}
      → find_flight round l ≡ some f
      → AllFull trusted l
      → PhaseIsFull trusted f.phase
  unfolding find_flight
  find_flight-IsFull round [] e p = cc
  find_flight-IsFull round (x ∷ xs) e (p, q) = elim (Bool-cases (x.round == round)) [
    | inl this ↦
        subst (λ (f : Flight). PhaseIsFull trusted f.phase) (some_eq (sym (if_true _ _ this) ∙ e)) p
    | inr other ↦ find_flight-IsFull round xs (sym (if_false _ _ other) ∙ e) q
  ]
    where
      some_eq : {f g : Flight} → some f ≡ some g → f ≡ g
      some_eq e = cc

  judge_live-IsSound :
      (f : Flight) (l : List ProbeResult) (o : Option Session) (s : Scheduler)
      → ((c : Session) → o ≡ some c → s.current ≡ some c)
      → IsFull trusted l
      → IsSound trusted s
      → IsSound trusted (judge_live f l o s)
  unfolding judge_live
  judge_live-IsSound f l none s e h p = record {
    follows = p.follows;
    shown = p.shown;
    full = drop_flight-AllFull trusted f.round s.flights p.full;
  }
  judge_live-IsSound f l (some c) s e h p =
      let (g, k) = follows-some trusted s c (e c refl) p in
      let (counted, same) = update-results l c.aggregate k in
      record {
        follows = (g, counted);
        shown = p.shown;
        full = (
          (same ∙ h.0, λ t. update-valid l c.aggregate k (h.1 t)),
          drop_flight-AllFull trusted f.round s.flights p.full,
        );
      }

  conclude_live-IsSound :
      (f : Flight) (l : List ProbeResult) (accepted : Bool) (o : Option Session) (s : Scheduler)
      → ((c : Session) → o ≡ some c → s.current ≡ some c)
      → IsFull trusted l
      → IsSound trusted s
      → IsSound trusted (conclude_live f l accepted o s)
  unfolding conclude_live
  conclude_live-IsSound f l accepted none s e h p = record {
    follows = p.follows;
    shown = p.shown;
    full = drop_flight-AllFull trusted f.round s.flights p.full;
  }
  conclude_live-IsSound f l true (some c) s e h p =
      let (g, k) = follows-some trusted s c (e c refl) p in
      record {
        follows = (refl, k);
        shown = inr h;
        full = drop_flight-AllFull trusted f.round s.flights p.full;
      }
  conclude_live-IsSound f l false (some c) s e h p =
      let (g, k) = follows-some trusted s c (e c refl) p in
      record {
        follows = (g, k);
        shown = p.shown;
        full = drop_flight-AllFull trusted f.round s.flights p.full;
      }

  advance_phase-IsSound :
      (f : Flight) (phase : Phase) (accepted : Bool) (s : Scheduler)
      → PhaseIsFull trusted phase
      → IsSound trusted s
      → IsSound trusted (advance_phase f phase accepted s)
  unfolding advance_phase
  advance_phase-IsSound f (collecting l seen) accepted s h p =
      judge_live-IsSound f l _ s (λ c. live_session-some f.session s.current) h p
  advance_phase-IsSound f (publishing q l) accepted s h p =
      conclude_live-IsSound f l accepted _ s (λ c. live_session-some f.session s.current) h p

  advance_found-IsSound :
      (o : Option Flight) (accepted : Bool) (s : Scheduler)
      → ((f : Flight) → o ≡ some f → PhaseIsFull trusted f.phase)
      → IsSound trusted s
      → IsSound trusted (advance_found o accepted s)
  unfolding advance_found
  advance_found-IsSound none accepted s h p = p
  advance_found-IsSound (some f) accepted s h p =
      advance_phase-IsSound f f.phase accepted s (h f refl) p

  cancel-IsSound : (s : Scheduler) → IsSound trusted s → IsSound trusted (cancel s)
  unfolding cancel cancel_current
  cancel-IsSound s p = record {
    follows = cancel-Follows s.current s.last p.follows;
    shown = p.shown;
    full = p.full;
  }
    where
      cancel-Follows :
          (o : Option Session) (last : Snapshot) → Follows o last → Follows (cancel_current o) last
      cancel-Follows none last h = h
      cancel-Follows (some c) last h = h

  SchedulerStep-IsSound :
      (s t : Scheduler) (st : SchedulerStep s t)
      → (trusted → IsTrusted st)
      → IsSound trusted s
      → IsSound trusted t
  unfolding tick manual answer advance
  SchedulerStep-IsSound s t (starts now ended g h e) v p =
      subst (IsSound trusted) e (start-IsSound trusted now ended g s h p)
  SchedulerStep-IsSound s t (ticks now serial h e) v p =
      subst (IsSound trusted) e
        (begin_live-IsSound trusted now _ s h (λ c. live_session-some serial s.current) p)
  SchedulerStep-IsSound s t (asks now ended h e) v p = subst (IsSound trusted) e (
      if_both (IsSound trusted) ended (λ _. p)
        (λ _. begin_live-IsSound trusted now _ s h (λ c. uncanceled-some s.current) p))
  SchedulerStep-IsSound s t (cancels e) v p = subst (IsSound trusted) e (cancel-IsSound s p)
  SchedulerStep-IsSound s t (answers round index r e) v p = subst (IsSound trusted) e (record {
    follows = p.follows;
    shown = p.shown;
    full = receive_flight-AllFull trusted round index r s.flights v p.full;
  })
  SchedulerStep-IsSound s t (advances round accepted e) v p = subst (IsSound trusted) e (
      advance_found-IsSound (find_flight round s.flights) accepted s
        (λ f h. find_flight-IsFull round s.flights h p.full) p)

  SchedulerReach-IsSound :
      {s : Scheduler} (h : SchedulerReach new_scheduler s)
      → (trusted → AllTrusted h)
      → IsSound trusted s
  SchedulerReach-IsSound at_start v = record { follows = refl; shown = inl refl; full = tt }
  SchedulerReach-IsSound (then_step r st) v =
      SchedulerStep-IsSound _ _ st (λ t. (v t).1) (SchedulerReach-IsSound r (λ t. (v t).0))

-- What the scheduler shows, and its counters.
pub record IsOrdered (s : Scheduler) : Type 0 where
  pub follows : Follows s.current s.last
  pub shown : (s.last.results ≡ []) ⊎ (ids s.last.results ≡ target_ids)

-- In every interleaving of starts, ticks, manual checks, cancellations, answers of any content and
-- rounds, where no clock reads Go's zero time, the snapshot that the scheduler shows holds no results,
-- or one of each target in the order of the targets; it has no results before the first session and
-- the generation of the present session after; and no counter of that session is over 3.
pub SchedulerReach-IsOrdered : {s : Scheduler} → SchedulerReach new_scheduler s → IsOrdered s
SchedulerReach-IsOrdered {s} h =
    let p = SchedulerReach-IsSound ⊥ h (λ t. absurd t) in
    record { follows = p.follows; shown = ordered s.last.results p.shown }
  where
    ordered : (l : List ProbeResult) → IsShown ⊥ l → (l ≡ []) ⊎ (ids l ≡ target_ids)
    ordered l (inl e) = inl e
    ordered l (inr full) = inr full.0

-- If every answer of the history is a valid result, which it is not where a server's status code is
-- over 599, and no clock reads Go's zero time, then every result that the scheduler shows is valid: those of targets that did
-- not answer, those renamed to their target and those with a counter.
pub SchedulerReach-valid :
    {s : Scheduler} (h : SchedulerReach new_scheduler s)
    → AllTrusted h
    → all valid_result s.last.results ≡ true
SchedulerReach-valid {s} h v = valid s.last.results (SchedulerReach-IsSound Unit h (λ t. v)).shown
  where
    valid : (l : List ProbeResult) → IsShown Unit l → all valid_result l ≡ true
    valid l (inl e) = ap (all valid_result) e
    valid l (inr full) = full.1 tt
