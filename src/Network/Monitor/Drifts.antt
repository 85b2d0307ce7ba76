-- ===== src/Network/Monitor/Drifts.antt =====
-- internal/agent/network_monitor.go: a fingerprint that differs from the connected one is reported.
use overseas.Base.{
  String, Bool, true, false, none, some, List, [], ◌∷◌, ◌++◌, str_eq, if◌then◌else◌, if_true,
  if_false, if_both, all, ◌≡◌, inl, inr, refl, sym, ap, ◌∙◌, arith, eq_iff, Bool-cases,
}
use overseas.Network.Monitor.{
  network_changed, emergency_armed, closed, delivered, MonitorEvent, context_done, fingerprint_tick,
  audit_tick, Watch, baseline_of, begin_watch, leave, compare_fingerprint, judge_audit,
  receive_event, watch,
}
use overseas.Network.Monitor.Watches.{is_steady, append_empty, watch_steady}

module _ (applies : Bool) where
  watch_stopped :
      (events : List MonitorEvent) (w : Watch) → w.is_running ≡ false → watch applies events w ≡ w
  unfolding watch
  watch_stopped [] w h = refl
  watch_stopped (event ∷ later) w h = rw h refl

  watch_append :
      (xs ys : List MonitorEvent) (w : Watch)
      → watch applies (xs ++ ys) w ≡ watch applies ys (watch applies xs w)
  unfolding watch
  watch_append [] ys w = refl
  watch_append (x ∷ xs) ys w = elim (Bool-cases w.is_running) [
    | inl runs ↦
        if_true _ _ runs
        ∙ watch_append xs ys (receive_event applies x w)
        ∙ ap (watch applies ys) (sym (if_true _ _ runs))
    | inr stopped ↦
        if_false _ _ stopped
        ∙ sym (watch_stopped ys w stopped)
        ∙ ap (watch applies ys) (sym (if_false _ _ stopped))
  ]

  -- A steady event keeps a known baseline.
  steady-baseline :
      (f : String) (event : MonitorEvent) (w : Watch)
      → is_steady f event ≡ true
      → w.baseline ≡ f
      → (receive_event applies event w).baseline ≡ f
  unfolding receive_event compare_fingerprint judge_audit
  steady-baseline f context_done w h b = cc
  steady-baseline f (fingerprint_tick ended none) w h b = ground (arith, b)
  steady-baseline f (fingerprint_tick ended (some g)) w h b =
      ground (arith, b, eq_iff g f, eq_iff g w.baseline)
  steady-baseline f (audit_tick ended passed after) w h b = ground (arith, b)

  watch-baseline :
      (f : String) (events : List MonitorEvent) (w : Watch)
      → all (is_steady f) events ≡ true
      → w.baseline ≡ f
      → (watch applies events w).baseline ≡ f
  unfolding watch
  watch-baseline f [] w h b = b
  watch-baseline f (event ∷ later) w h b =
      let this : is_steady f event ≡ true = ground (arith, h) in
      let rest : all (is_steady f) later ≡ true = ground (arith, h) in
      if_both (λ (v : Watch). v.baseline ≡ f) w.is_running
        (λ _.
          watch-baseline f later (receive_event applies event w) rest
            (steady-baseline f event w this b))
        (λ _. b)

  drift-reported :
      (f g : String) (w : Watch) (later : List MonitorEvent)
      → w.is_running ≡ true
      → w.log ≡ []
      → w.baseline ≡ f
      → str_eq f "" ≡ false
      → str_eq g f ≡ false
      → (watch applies (fingerprint_tick false (some g) ∷ later) w).log ≡ (
          if applies
          then emergency_armed ∷ delivered network_changed ∷ closed ∷ []
          else delivered network_changed ∷ closed ∷ [])
  unfolding watch receive_event compare_fingerprint
  drift-reported f g w later runs silent b known other =
      let n : str_eq w.baseline "" ≡ false = ap (λ x. str_eq x "") b ∙ known in
      let m : str_eq g w.baseline ≡ false = ap (str_eq g) b ∙ other in
      let next : receive_event applies (fingerprint_tick false (some g)) w
          ≡ leave
              (if applies
                then emergency_armed ∷ delivered network_changed ∷ closed ∷ []
                else delivered network_changed ∷ closed ∷ [])
              w =
        rw (n, m) refl in
      ap (λ (v : Watch). v.log)
        (if_true _ _ runs ∙ ap (watch applies later) next ∙ watch_stopped later _ refl)
      ∙ append_empty _ silent

-- If the fingerprint of the connected network was read when the monitor began, and after any events
-- that show no drift a tick reads another fingerprint, then the failure of a changed network is
-- delivered, behind the emergency rule if there is a firewall pool, whatever comes later.
pub watch_drift :
    (applies : Bool) (f g : String) (events later : List MonitorEvent)
    → str_eq f "" ≡ false
    → str_eq g f ≡ false
    → all (is_steady f) events ≡ true
    → (watch applies
        (events ++ (fingerprint_tick false (some g) ∷ later))
        (begin_watch (some f))).log
      ≡ (if applies
          then emergency_armed ∷ delivered network_changed ∷ closed ∷ []
          else delivered network_changed ∷ closed ∷ [])
unfolding begin_watch baseline_of
watch_drift applies f g events later known other steady =
    let start : Watch = begin_watch (some f) in
    let (runs, silent) = watch_steady applies f (some f) events (inr refl) steady in
    ap (λ (v : Watch). v.log) (watch_append applies events _ start)
    ∙ drift-reported applies f g (watch applies events start) later runs silent
        (watch-baseline applies f events start steady refl) known other
