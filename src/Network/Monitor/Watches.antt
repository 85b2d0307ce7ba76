-- ===== src/Network/Monitor/Watches.antt =====
-- internal/agent/network_monitor.go: a healthy connection is left alone, a drift ends it once.
use mathlib.Core.Path.{subst}
use overseas.Base.{
  sym, ap, ◌++◌, String, Bool, true, false, Option, none, some, List, [], ◌∷◌, ◌&&◌, not, str_eq,
  if◌then◌else◌, if_both, all, ◌≡◌, ◌⊎◌, inl, inr, refl, arith, eq_iff, Bool-cases,
}
use overseas.Network.Monitor.{
  MonitorCause, network_changed, firewall_audit_failed, MonitorAction, emergency_armed, closed,
  delivered, MonitorEvent, context_done, fingerprint_tick, audit_tick, Watch, baseline_of,
  begin_watch, leave, compare_fingerprint, judge_audit, receive_event, watch,
}

-- An event that shows no drift from a fingerprint: a failed read, the same fingerprint, or an audit
-- that passed.
abbrev pub is_steady : String → MonitorEvent → Bool
is_steady f context_done = false
is_steady f (fingerprint_tick ended none) = not ended
is_steady f (fingerprint_tick ended (some g)) = not ended && str_eq g f
is_steady f (audit_tick ended passed after) = not ended && passed

-- The monitor runs, knows no other baseline than `f`, and has done nothing.
record IsQuiet (f : String) (w : Watch) : Type 0 where
  runs : w.is_running ≡ true
  baseline : (w.baseline ≡ "") ⊎ (w.baseline ≡ f)
  silent : w.log ≡ []

-- What is known of a drift's log.
abbrev pub IsEnded : Bool → List MonitorAction → Type 0
IsEnded applies log =
    (log ≡ [])
    ⊎ (((applies ≡ true)
          × ((cause : MonitorCause) × (log ≡ emergency_armed ∷ delivered cause ∷ closed ∷ [])))
        ⊎ ((applies ≡ false) × (log ≡ delivered network_changed ∷ closed ∷ [])))

-- The monitor has ended at most once: while it runs it has done nothing.
pub record IsLogged (applies : Bool) (w : Watch) : Type 0 where
  pub ended : IsEnded applies w.log
  pub silent : w.is_running ≡ true → w.log ≡ []

-- A log that was empty is what was appended to it.
pub append_empty : {A : Type 0} {l : List A} (m : List A) → l ≡ [] → l ++ m ≡ m
append_empty m h = ap (λ l. l ++ m) h

module _ (applies : Bool) where
  steady-IsQuiet :
      (f : String) (event : MonitorEvent) (w : Watch)
      → is_steady f event ≡ true
      → IsQuiet f w
      → IsQuiet f (receive_event applies event w)
  unfolding receive_event compare_fingerprint judge_audit
  steady-IsQuiet f context_done w h p = cc
  steady-IsQuiet f (fingerprint_tick ended none) w h p = record {
    runs = ground (arith, p.runs);
    baseline = ground (arith, p.baseline);
    silent = ground (arith, p.silent);
  }
  steady-IsQuiet f (fingerprint_tick ended (some g)) w h p = record {
    runs =
        ground (arith, p.runs, p.baseline, eq_iff g f, eq_iff g w.baseline, eq_iff w.baseline "");
    baseline = ground (arith, p.baseline, eq_iff g f, eq_iff g w.baseline);
    silent =
        ground (arith, p.silent, p.baseline, eq_iff g f, eq_iff g w.baseline, eq_iff w.baseline "");
  }
  steady-IsQuiet f (audit_tick ended passed after) w h p = record {
    runs = ground (arith, p.runs);
    baseline = ground (arith, p.baseline);
    silent = ground (arith, p.silent);
  }

  watch-IsQuiet :
      (f : String) (events : List MonitorEvent) (w : Watch)
      → all (is_steady f) events ≡ true
      → IsQuiet f w
      → IsQuiet f (watch applies events w)
  unfolding watch
  watch-IsQuiet f [] w h p = p
  watch-IsQuiet f (event ∷ later) w h p =
      let this : is_steady f event ≡ true = ground (arith, h) in
      let rest : all (is_steady f) later ≡ true = ground (arith, h) in
      if_both (IsQuiet f) w.is_running
        (λ _. watch-IsQuiet f later _ rest (steady-IsQuiet f event w this p)) (λ _. p)

  stopped-IsLogged : (w : Watch) → w.log ≡ [] → IsLogged applies (leave [] w)
  stopped-IsLogged w h = record { ended = inl (append_empty [] h); silent = λ r. cc }

  compare-IsLogged :
      (answer : Option String) (w : Watch)
      → w.log ≡ []
      → IsLogged applies (compare_fingerprint applies answer w)
  unfolding compare_fingerprint
  compare-IsLogged none w h = record { ended = inl h; silent = λ r. h }
  compare-IsLogged (some g) w h =
      if_both (IsLogged applies) (not (str_eq w.baseline "") && not (str_eq g w.baseline))
        (λ _. record {
          ended = subst (IsEnded applies) (sym (append_empty _ h)) told;
          silent = λ r. cc;
        })
        (λ _.
          if_both (IsLogged applies) (str_eq w.baseline "")
            (λ _. record { ended = inl h; silent = λ r. h })
            (λ _. record { ended = inl h; silent = λ r. h }))
    where
      told : IsEnded applies (
          if applies
          then emergency_armed ∷ delivered network_changed ∷ closed ∷ []
          else delivered network_changed ∷ closed ∷ [])
      told = elim (Bool-cases applies) [
        | inl armed ↦ inr (inl (armed, (network_changed, rw armed refl)))
        | inr unarmed ↦ inr (inr (unarmed, rw unarmed refl))
      ]

  judge_audit-IsLogged :
      (passed after : Bool) (w : Watch)
      → applies ≡ true
      → w.log ≡ []
      → IsLogged applies (judge_audit applies passed after w)
  unfolding judge_audit
  judge_audit-IsLogged passed after w armed h =
      if_both (IsLogged applies) passed (λ _. record { ended = inl h; silent = λ r. h })
        (λ _.
          if_both (IsLogged applies) after (λ _. stopped-IsLogged w h)
            (λ _. record {
              ended = inr (inl (armed, (firewall_audit_failed, append_empty _ h)));
              silent = λ r. cc;
            }))

  receive-IsLogged :
      (event : MonitorEvent) (w : Watch)
      → w.log ≡ []
      → IsLogged applies (receive_event applies event w)
  unfolding receive_event
  receive-IsLogged context_done w h = stopped-IsLogged w h
  receive-IsLogged (fingerprint_tick ended answer) w h =
      if_both (IsLogged applies) ended (λ _. stopped-IsLogged w h)
        (λ _. compare-IsLogged answer w h)
  receive-IsLogged (audit_tick ended passed after) w h =
      if_both (IsLogged applies) (not applies) (λ _. record { ended = inl h; silent = λ r. h })
        (λ armed.
          if_both (IsLogged applies) ended (λ _. stopped-IsLogged w h)
            (λ _. judge_audit-IsLogged passed after w (ground (arith, armed)) h))

  later-IsLogged :
      (events : List MonitorEvent) (w : Watch)
      → IsLogged applies w
      → IsLogged applies (watch applies events w)
  unfolding watch
  later-IsLogged [] w p = p
  later-IsLogged (event ∷ later) w p =
      if_both (IsLogged applies) w.is_running
        (λ r. later-IsLogged later _ (receive-IsLogged event w (p.silent r))) (λ _. p)

begin_watch-IsQuiet :
    (f : String) (first : Option String)
    → (first ≡ none) ⊎ (first ≡ some f)
    → IsQuiet f (begin_watch first)
unfolding begin_watch baseline_of
begin_watch-IsQuiet f none h = record { runs = refl; baseline = inl refl; silent = refl }
begin_watch-IsQuiet f (some g) (inl h) = cc
begin_watch-IsQuiet f (some g) (inr h) = record {
  runs = refl;
  baseline = inr (cc h);
  silent = refl;
}

-- While every read of the fingerprint fails or gives the one of the connected network, and every audit
-- passes, the monitor runs on and has done nothing, however many reads fail.
pub watch_steady :
    (applies : Bool) (f : String) (first : Option String) (events : List MonitorEvent)
    → (first ≡ none) ⊎ (first ≡ some f)
    → all (is_steady f) events ≡ true
    → ((watch applies events (begin_watch first)).is_running ≡ true)
      × ((watch applies events (begin_watch first)).log ≡ [])
watch_steady applies f first events h p =
    let q = watch-IsQuiet applies f events (begin_watch first) p (begin_watch-IsQuiet f first h) in
    (q.runs, q.silent)

-- Whatever the monitor meets, it has done nothing, or has delivered one failure and closed the channel,
-- after the emergency rule was armed if there is a firewall pool, else for a changed network alone; and
-- while it runs it has done nothing, so that no failure is delivered after another.
pub watch-IsLogged :
    (applies : Bool) (first : Option String) (events : List MonitorEvent)
    → IsLogged applies (watch applies events (begin_watch first))
unfolding begin_watch
watch-IsLogged applies first events =
    later-IsLogged applies events (begin_watch first)
      (record { ended = inl refl; silent = λ r. refl })
