-- ===== src/Network/Monitor/Tests.antt =====
-- internal/agent/network_monitor.go on short runs.
use overseas.Base.{true, false, none, some, List, [], ◌∷◌, ◌++◌, ◌≡◌, inr, refl}
use overseas.Network.Monitor.{
  network_changed, emergency_armed, closed, delivered, MonitorEvent, fingerprint_tick, audit_tick,
  begin_watch, watch,
}
use overseas.Network.Monitor.Watches.{IsLogged, watch_steady, watch-IsLogged}
use overseas.Network.Monitor.Drifts.{watch_drift}

abbrev calm : List MonitorEvent
calm =
    fingerprint_tick false none
    ∷ audit_tick false true false
    ∷ fingerprint_tick false (some "f1")
    ∷ []

watch_steady_example :
    ((watch true calm (begin_watch (some "f1"))).is_running ≡ true)
    × ((watch true calm (begin_watch (some "f1"))).log ≡ [])
watch_steady_example = watch_steady true "f1" (some "f1") calm (inr refl) refl

watch-IsLogged_example :
    IsLogged true (watch true (audit_tick false false false ∷ calm) (begin_watch none))
watch-IsLogged_example = watch-IsLogged true none (audit_tick false false false ∷ calm)

watch_drift_example :
    (watch true (calm ++ (fingerprint_tick false (some "f2") ∷ calm)) (begin_watch (some "f1"))).log
    ≡ emergency_armed ∷ delivered network_changed ∷ closed ∷ []
watch_drift_example = watch_drift true "f1" "f2" calm calm refl refl refl
