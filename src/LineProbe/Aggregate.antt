-- ===== src/LineProbe/Aggregate.antt =====
-- internal/lineprobe/aggregate.go: the consecutive failures of each target and the line's quality.
-- A map of counters is a function, in which a missing key is 0.
use overseas.Base.{
  ℕ, ℤ, pos, leb_int, not, ◌+◌, ◌/◌, String, Bool, true, false, Option, none, some, List, [], ◌∷◌,
  ◌&&◌, ltb, leb, str_eq, if◌then◌else◌, length, get_elem?,
}
use overseas.Agent.Env.{LineQuality, unknown, good, slow, failed}

pub record ProbeResult : Type 0 where
  pub id : String
  pub is_reachable : Bool
  pub http_status : ℤ
  pub latency_ms : ℤ
  pub error_code : String
  pub checked_at : ℕ  -- 0 is Go's zero time
  pub consecutive_failures : Option ℤ

-- `Aggregate`; `quality` is `none` for the empty text of a new one.
pub record Aggregate : Type 0 where
  pub failures : String → ℕ
  pub quality : Option LineQuality

abbrev pub is_healthy : ProbeResult → Bool
is_healthy r =
    r.is_reachable && (leb_int (pos 200) r.http_status && not (leb_int (pos 500) r.http_status))

-- The counter of a target after a check: reset, or counted up to 3.
abbrev pub next_count : Bool → ℕ → ℕ
next_count true count = 0
next_count false count = if ltb count 3 then count + 1 else count

abbrev pub set_count : String → ℕ → (String → ℕ) → String → ℕ
set_count id count failures key = if str_eq id key then count else failures key

-- What the loop of `Update` carries.
pub record Round : Type 0 where
  pub failures : String → ℕ
  pub sustained : ℕ
  pub latencies : List ℤ  -- newest first: they are sorted before they are read
  pub results : List ProbeResult  -- newest first

abbrev pub is_sustained : ℕ → ℕ
is_sustained count = if leb 3 count then 1 else 0

unfoldable pub count_result : ProbeResult → Round → Round
count_result r round =
    let count = next_count (is_healthy r) (round.failures r.id) in
    record {
      failures = set_count r.id count round.failures;
      sustained = round.sustained + is_sustained count;
      latencies = if is_healthy r then r.latency_ms ∷ round.latencies else round.latencies;
      results = record r { consecutive_failures = some (pos count) } ∷ round.results;
    }

-- The loop over the results, in their order.
unfoldable pub count_results : List ProbeResult → Round → Round
count_results [] round = round
count_results (r ∷ rs) round = count_results rs (count_result r round)

abbrev pub empty_round : Aggregate → Round
empty_round a = record { failures = a.failures; sustained = 0; latencies = []; results = [] }

-- `sort.Slice` on the latencies.
abbrev pub insert : ℤ → List ℤ → List ℤ
insert x [] = x ∷ []
insert x (y ∷ ys) = let rest = insert x ys in if not (leb_int x y) then y ∷ rest else x ∷ y ∷ ys

abbrev pub sort : List ℤ → List ℤ
sort [] = []
sort (x ∷ xs) = insert x (sort xs)

abbrev pub reverse_onto : {A : Type 0} → List A → List A → List A
reverse_onto [] ys = ys
reverse_onto (x ∷ xs) ys = reverse_onto xs (x ∷ ys)

abbrev pub is_slow : Option ℤ → LineQuality
is_slow (some latency) = if leb_int (pos 1000) latency then slow else good
is_slow none = good

abbrev pub quality_or_unknown : Option LineQuality → LineQuality
quality_or_unknown none = unknown
quality_or_unknown (some q) = q

-- The verdict on a counted round of `n` results: the quality returned, and the one remembered.
unfoldable pub judge_round : ℕ → Option LineQuality → Round → LineQuality × Option LineQuality
judge_round n quality round =
    if ltb (n / 2) round.sustained
    then (failed, some failed)
    else if leb (length round.latencies) (n / 2)
    then (quality_or_unknown quality, quality)
    else let q = is_slow (get_elem? (sort round.latencies) (length round.latencies / 2)) in
      (q, some q)

-- `Update`: the quality, the aggregate, and the annotated results in their order.
unfoldable pub update : List ProbeResult → Aggregate → LineQuality × Aggregate × List ProbeResult
update results a =
    let round = count_results results (empty_round a) in
    let verdict = judge_round (length results) a.quality round in
    (
      verdict.0,
      record { failures = round.failures; quality = verdict.1 },
      reverse_onto round.results [],
    )
