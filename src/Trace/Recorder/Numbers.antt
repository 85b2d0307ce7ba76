-- ===== src/Trace/Recorder/Numbers.antt =====
-- internal/traceevent/recorder.go: events whose sequence numbers increase.
use overseas.Base.{ℕ, ◌≤◌, ◌<◌, List, [], ◌∷◌, ◌++◌, leb, if◌then◌else◌, ◌≡◌, refl, arith, tail}
use overseas.Trace.Event.{Event}

-- The sequence numbers increase, above `low` and up to `high`.
abbrev pub IsNumbered : ℕ → ℕ → List Event → Type 0
IsNumbered low high [] = low ≤ high
IsNumbered low high (e ∷ es) = (low < e.sequence) × IsNumbered e.sequence high es

-- The events after a cursor.
abbrev pub newer : ℕ → List Event → List Event
newer after [] = []
newer after (e ∷ es) = if leb e.sequence after then newer after es else e ∷ newer after es

pub IsNumbered-weaken :
    (low high high' : ℕ) (es : List Event)
    → high ≤ high'
    → IsNumbered low high es
    → IsNumbered low high' es
IsNumbered-weaken low high high' [] le p = omega arith
IsNumbered-weaken low high high' (e ∷ es) le (lt, p) =
    (lt, IsNumbered-weaken e.sequence high high' es le p)

pub IsNumbered-lower :
    (low low' high : ℕ) (es : List Event)
    → low' ≤ low
    → IsNumbered low high es
    → IsNumbered low' high es
IsNumbered-lower low low' high [] le p = omega arith
IsNumbered-lower low low' high (e ∷ es) le (lt, p) = (omega arith, p)

pub tail-IsNumbered :
    (low high : ℕ) (es : List Event) → IsNumbered low high es → IsNumbered low high (tail es)
tail-IsNumbered low high [] p = p
tail-IsNumbered low high (e ∷ es) (lt, p) = IsNumbered-lower e.sequence low high es (omega arith) p

pub append-IsNumbered :
    (low high : ℕ) (es : List Event) (e : Event)
    → high < e.sequence
    → IsNumbered low high es
    → IsNumbered low e.sequence (es ++ (e ∷ []))
append-IsNumbered low high [] e lt p = (omega arith, omega arith)
append-IsNumbered low high (x ∷ xs) e lt (below, p) =
    (below, append-IsNumbered x.sequence high xs e lt p)

pub newer-IsNumbered :
    (after low high : ℕ) (es : List Event)
    → after ≤ low
    → IsNumbered low high es
    → newer after es ≡ es
newer-IsNumbered after low high [] le p = refl
newer-IsNumbered after low high (e ∷ es) le (lt, p) =
    let rest = newer-IsNumbered after e.sequence high es (omega arith) p in ground (arith, rest)
