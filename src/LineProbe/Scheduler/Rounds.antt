-- ===== src/LineProbe/Scheduler/Rounds.antt =====
-- internal/lineprobe/scheduler.go: a session has at most one round under way.
use mathlib.Core.Path.{subst}
use overseas.Base.{
  ℕ, ◌+◌, ◌≤◌, ◌<◌, Option, none, some, List, [], ◌∷◌, ◌==◌, if◌then◌else◌, if_both, if_true,
  if_false, ◌≡◌, refl, sym, ap, ◌∙◌, arith, inl, inr, Bool-cases,
}
use overseas.LineProbe.Aggregate.{ProbeResult}
use overseas.LineProbe.Scheduler.{
  Session, Flight, Scheduler, begin_new, receive_flight, find_flight, drop_flight,
}

-- How many rounds of a session are under way.
abbrev pub rounds_of : ℕ → List Flight → ℕ
rounds_of serial [] = 0
rounds_of serial (f ∷ fs) = (if f.session == serial then 1 else 0) + rounds_of serial fs

abbrev pub IsIdle : Option Session → ℕ → List Flight → Type 0
IsIdle none bound fs = Unit
IsIdle (some c) bound fs = (c.serial < bound) × (c.active ≡ none → rounds_of c.serial fs ≡ 0)

pub record IsSingle (s : Scheduler) : Type 0 where
  pub single : (serial : ℕ) → rounds_of serial s.flights ≤ 1
  pub bounded : (serial : ℕ) → s.next_serial ≤ serial → rounds_of serial s.flights ≡ 0
  pub idle : IsIdle s.current s.next_serial s.flights

pub receive_flight-rounds :
    (round index : ℕ) (r : ProbeResult) (serial : ℕ) (l : List Flight)
    → rounds_of serial (receive_flight round index r l) ≡ rounds_of serial l
unfolding receive_flight
receive_flight-rounds round index r serial [] = refl
receive_flight-rounds round index r serial (f ∷ fs) =
    if_both (λ l. rounds_of serial l ≡ rounds_of serial (f ∷ fs)) (f.round == round) (λ _. refl)
      (λ _.
        ap (λ n. (if f.session == serial then 1 else 0) + n)
          (receive_flight-rounds round index r serial fs))

pub drop_flight-le :
    (round serial : ℕ) (l : List Flight)
    → rounds_of serial (drop_flight round l) ≤ rounds_of serial l
unfolding drop_flight
drop_flight-le round serial [] = omega arith
drop_flight-le round serial (f ∷ fs) = ground (arith, drop_flight-le round serial fs)

-- The flight that is found is one of those that are dropped.
pub find-drop :
    (round serial : ℕ) (l : List Flight) {f : Flight}
    → find_flight round l ≡ some f
    → (f.round ≡ round)
      × ((if f.session == serial then 1 else 0) + rounds_of serial (drop_flight round l)
          ≤ rounds_of serial l)
unfolding find_flight drop_flight
find-drop round serial [] e = cc
find-drop round serial (g ∷ gs) {f} e = elim (Bool-cases (g.round == round)) [
  | inl this ↦
      let same : g ≡ f = some-eq (sym (if_true _ _ this) ∙ e) in
      let at : g.round ≡ round = ground (arith, this) in
      (
        ap (λ (h : Flight). h.round) (sym same) ∙ at,
        ground (arith, this, drop_flight-le round serial gs, ap (λ (h : Flight). h.session) same),
      )
  | inr other ↦
      let (p, q) = find-drop round serial gs (sym (if_false _ _ other) ∙ e) in
      (p, ground (arith, other, q))
]
  where
    some-eq : {a b : Flight} → some a ≡ some b → a ≡ b
    some-eq e = cc

pub begin_new-IsSingle :
    (now : ℕ) (c : Session) (s : Scheduler)
    → c.serial < s.next_serial
    → rounds_of c.serial s.flights ≡ 0
    → ((serial : ℕ) → rounds_of serial s.flights ≤ 1)
    → ((serial : ℕ) → s.next_serial ≤ serial → rounds_of serial s.flights ≡ 0)
    → IsSingle (begin_new now c s)
unfolding begin_new
begin_new-IsSingle now c s h z single bounded = record {
  single = λ serial. one serial;
  bounded = λ serial k. ground (arith, h, k, bounded serial k);
  idle = (h, λ e. cc);
}
  where
    one : (serial : ℕ) → (if c.serial == serial then 1 else 0) + rounds_of serial s.flights ≤ 1
    one serial = elim (Bool-cases (c.serial == serial)) [
      | inl same ↦
          let e : c.serial ≡ serial = ground (arith, same) in
          let n = ap (λ k. rounds_of k s.flights) (sym e) ∙ z in ground (arith, same, n)
      | inr other ↦ ground (arith, other, single serial)
    ]

pub current-idle :
    (s : Scheduler) (c : Session)
    → s.current ≡ some c
    → IsSingle s
    → (c.serial < s.next_serial) × (c.active ≡ none → rounds_of c.serial s.flights ≡ 0)
current-idle s c e p = subst (λ o. IsIdle o s.next_serial s.flights) e p.idle
