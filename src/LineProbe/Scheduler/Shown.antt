-- ===== src/LineProbe/Scheduler/Shown.antt =====
-- internal/lineprobe/scheduler.go: what the scheduler shows of its rounds.
use mathlib.Core.Path.{subst}
use overseas.Base.{
  ℕ, ◌≤◌, ◌<◌, String, Bool, true, false, Option, none, some, List, [], ◌∷◌, ◌||◌, ◌==◌, if_both,
  ◌≡◌, ◌⊎◌, inl, refl, ap, ◌∙◌, arith, map, all, zero, suc,
}
use overseas.LineProbe.Aggregate.{ProbeResult}
use overseas.LineProbe.Probe.{Target, targets}
use overseas.LineProbe.Scheduler.{
  Snapshot, Session, Phase, collecting, publishing, Flight, Scheduler, unanswered, begin_new,
  begin_with, is_current_generation, start, live_session, begin_live, uncanceled, receive,
  receive_phase, receive_flight, drop_flight,
}
use overseas.LineProbe.Scheduler.Annotate.{IsCounted, ids, and-true, all-cons}
use overseas.LocalApi.Protocol.{valid_result, target_ids}

-- The generation that a status reader may be shown results of.
abbrev pub Follows : Option Session → Snapshot → Type 0
Follows none last = last.results ≡ []
Follows (some c) last = (last.generation ≡ c.generation) × IsCounted c.aggregate.failures

renamed-valid :
    (r : ProbeResult) (id : String)
    → valid_result r ≡ true
    → valid_result (record r { id = id }) ≡ true
unfolding valid_result
renamed-valid r id v = v

-- An answer replaces a result by another of the same target.
receive-ids :
    (index : ℕ) (r : ProbeResult) (l : List ProbeResult) (seen : List Bool)
    → ids (receive index r l seen).0 ≡ ids l
unfolding receive
receive-ids index r [] seen = refl
receive-ids index r (x ∷ xs) [] = refl
receive-ids zero r (x ∷ xs) (true ∷ seen) = refl
receive-ids zero r (x ∷ xs) (false ∷ seen) = refl
receive-ids (suc index) r (x ∷ xs) (b ∷ seen) =
    ap (λ (l : List String). x.id ∷ l) (receive-ids index r xs seen)

receive-valid :
    (index : ℕ) (r : ProbeResult) (l : List ProbeResult) (seen : List Bool)
    → valid_result r ≡ true
    → all valid_result l ≡ true
    → all valid_result (receive index r l seen).0 ≡ true
unfolding receive
receive-valid index r [] seen v p = refl
receive-valid index r (x ∷ xs) [] v p = p
receive-valid zero r (x ∷ xs) (true ∷ seen) v p = p
receive-valid zero r (x ∷ xs) (false ∷ seen) v p =
    and-true (renamed-valid r x.id v) (all-cons x xs p).1
receive-valid (suc index) r (x ∷ xs) (b ∷ seen) v p =
    let (this, others) = all-cons x xs p in and-true this (receive-valid index r xs seen v others)

-- The targets before they answer, at a time that is not Go's zero time.
unanswered-valid : (now : ℕ) (t : Target) → 0 < now → valid_result (unanswered now t) ≡ true
unfolding valid_result
unanswered-valid now t h = ground arith

unanswered-ids :
    (now : ℕ) (l : List Target) → ids (map (unanswered now) l) ≡ map (λ (t : Target). t.id) l
unanswered-ids now [] = refl
unanswered-ids now (t ∷ ts) = ap (λ (l : List String). t.id ∷ l) (unanswered-ids now ts)

unanswered-all :
    (now : ℕ) (l : List Target) → 0 < now → all valid_result (map (unanswered now) l) ≡ true
unanswered-all now [] h = refl
unanswered-all now (t ∷ ts) h = and-true (unanswered-valid now t h) (unanswered-all now ts h)

-- The session found is the current one.
pub live_session-some :
    (serial : ℕ) (o : Option Session) {c : Session} → live_session serial o ≡ some c → o ≡ some c
live_session-some serial none e = e
live_session-some serial (some b) e = ground arith

pub uncanceled-some : (o : Option Session) {c : Session} → uncanceled o ≡ some c → o ≡ some c
uncanceled-some none e = e
uncanceled-some (some b) e = ground arith

module _ (trusted : Type 0) where
  -- The results of all targets in order, valid where `trusted` holds.
  abbrev pub IsFull : List ProbeResult → Type 0
  IsFull l = (ids l ≡ target_ids) × (trusted → all valid_result l ≡ true)

  abbrev pub IsShown : List ProbeResult → Type 0
  IsShown l = (l ≡ []) ⊎ IsFull l

  abbrev pub PhaseIsFull : Phase → Type 0
  PhaseIsFull (collecting l seen) = IsFull l
  PhaseIsFull (publishing q l) = IsFull l

  abbrev pub AllFull : List Flight → Type 0
  AllFull [] = Unit
  AllFull (f ∷ fs) = PhaseIsFull f.phase × AllFull fs

  pub record IsSound (s : Scheduler) : Type 0 where
    pub follows : Follows s.current s.last
    pub shown : IsShown s.last.results
    pub full : AllFull s.flights

  pub follows-some :
      (s : Scheduler) (c : Session)
      → s.current ≡ some c
      → IsSound s
      → (s.last.generation ≡ c.generation) × IsCounted c.aggregate.failures
  follows-some s c e p = subst (λ o. Follows o s.last) e p.follows

  receive_phase-IsFull :
      (index : ℕ) (r : ProbeResult) (p : Phase)
      → (trusted → valid_result r ≡ true)
      → PhaseIsFull p
      → PhaseIsFull (receive_phase index r p)
  unfolding receive_phase
  receive_phase-IsFull index r (collecting l seen) v p =
      (receive-ids index r l seen ∙ p.0, λ t. receive-valid index r l seen (v t) (p.1 t))
  receive_phase-IsFull index r (publishing q l) v p = p

  pub receive_flight-AllFull :
      (round index : ℕ) (r : ProbeResult) (l : List Flight)
      → (trusted → valid_result r ≡ true)
      → AllFull l
      → AllFull (receive_flight round index r l)
  unfolding receive_flight
  receive_flight-AllFull round index r [] v p = tt
  receive_flight-AllFull round index r (f ∷ fs) v (p, q) =
      if_both AllFull (f.round == round) (λ _. (receive_phase-IsFull index r f.phase v p, q))
        (λ _. (p, receive_flight-AllFull round index r fs v q))

  pub drop_flight-AllFull :
      (round : ℕ) (l : List Flight) → AllFull l → AllFull (drop_flight round l)
  unfolding drop_flight
  drop_flight-AllFull round [] p = tt
  drop_flight-AllFull round (f ∷ fs) (p, q) =
      let rest = drop_flight-AllFull round fs q in
      if_both AllFull (f.round == round) (λ _. rest) (λ _. (p, rest))

  begin_new-IsSound :
      (now : ℕ) (c : Session) (s : Scheduler)
      → 0 < now
      → s.last.generation ≡ c.generation
      → IsCounted c.aggregate.failures
      → IsShown s.last.results
      → AllFull s.flights
      → IsSound (begin_new now c s)
  unfolding begin_new
  begin_new-IsSound now c s h g k shown full = record {
    follows = (g, k);
    shown = shown;
    full = ((unanswered-ids now targets, λ t. unanswered-all now targets h), full);
  }

  begin_with-IsSound :
      (now : ℕ) (c : Session) (active : Option ℕ) (s : Scheduler)
      → 0 < now
      → s.current ≡ some c
      → IsSound s
      → IsSound (begin_with now c active s)
  unfolding begin_with
  begin_with-IsSound now c (some round) s h e p = p
  begin_with-IsSound now c none s h e p =
      let (g, k) = follows-some s c e p in begin_new-IsSound now c s h g k p.shown p.full

  pub start-IsSound :
      (now : ℕ) (ended : Bool) (g : ℕ) (s : Scheduler)
      → 0 < now
      → IsSound s
      → IsSound (start now ended g s)
  unfolding start
  start-IsSound now ended g s h p =
      if_both IsSound (ended || is_current_generation g s.current) (λ _. p)
        (λ _. begin_new-IsSound now _ _ h refl (λ key. zero_le) (inl refl) p.full)
    where
      zero_le : 0 ≤ 3
      zero_le = omega arith

  pub begin_live-IsSound :
      (now : ℕ) (o : Option Session) (s : Scheduler)
      → 0 < now
      → ((c : Session) → o ≡ some c → s.current ≡ some c)
      → IsSound s
      → IsSound (begin_live now o s)
  unfolding begin_live
  begin_live-IsSound now none s h e p = p
  begin_live-IsSound now (some c) s h e p = begin_with-IsSound now c c.active s h (e c refl) p
