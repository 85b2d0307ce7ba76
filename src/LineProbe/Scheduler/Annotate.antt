-- ===== src/LineProbe/Scheduler/Annotate.antt =====
-- internal/lineprobe/aggregate.go: what `Update` writes into the results of a round.
use overseas.Base.{
  ℕ, pos, ◌≤◌, String, Bool, true, false, some, List, [], ◌∷◌, ◌&&◌, str_eq, if_both, ◌≡◌, refl, ap,
  ◌∙◌, arith, map, all,
}
use overseas.LineProbe.Aggregate.{
  ProbeResult, Aggregate, Round, is_healthy, next_count, set_count, count_result, count_results,
  empty_round, reverse_onto, update,
}
use overseas.LocalApi.Protocol.{valid_result}

-- Every counter is at most 3.
abbrev pub IsCounted : (String → ℕ) → Type 0
IsCounted failures = (key : String) → failures key ≤ 3

abbrev pub ids : List ProbeResult → List String
ids l = map (λ (r : ProbeResult). r.id) l

pub and-true : {a b : Bool} → a ≡ true → b ≡ true → (a && b) ≡ true
and-true p q = rw (p, q) refl

pub all-cons :
    (r : ProbeResult) (rs : List ProbeResult)
    → all valid_result (r ∷ rs) ≡ true
    → (valid_result r ≡ true) × (all valid_result rs ≡ true)
all-cons r rs h = ground arith

next_count-le : (b : Bool) (c : ℕ) → c ≤ 3 → next_count b c ≤ 3
next_count-le true c h = omega arith
next_count-le false c h = ground arith

set_count-IsCounted :
    (id : String) (c : ℕ) (failures : String → ℕ)
    → c ≤ 3
    → IsCounted failures
    → IsCounted (set_count id c failures)
set_count-IsCounted id c failures h p key =
    if_both (λ n. n ≤ 3) (str_eq id key) (λ _. h) (λ _. p key)

-- An annotated result is as valid as it was.
annotated-valid :
    (r : ProbeResult) (c : ℕ)
    → c ≤ 3
    → valid_result r ≡ true
    → valid_result (record r { consecutive_failures = some (pos c) }) ≡ true
unfolding valid_result
annotated-valid r c h v = ground arith

count_result-IsCounted :
    (r : ProbeResult) (round : Round)
    → IsCounted round.failures
    → IsCounted (count_result r round).failures
unfolding count_result
count_result-IsCounted r round p =
    set_count-IsCounted r.id _ round.failures (next_count-le (is_healthy r) _ (p r.id)) p

count_results-IsCounted :
    (l : List ProbeResult) (round : Round)
    → IsCounted round.failures
    → IsCounted (count_results l round).failures
unfolding count_results
count_results-IsCounted [] round p = p
count_results-IsCounted (r ∷ rs) round p =
    count_results-IsCounted rs _ (count_result-IsCounted r round p)

-- The results in their order, each with the count of its target.
annotate : (String → ℕ) → List ProbeResult → List ProbeResult
annotate failures [] = []
annotate failures (r ∷ rs) =
    let count = next_count (is_healthy r) (failures r.id) in
    record r { consecutive_failures = some (pos count) }
    ∷ annotate (set_count r.id count failures) rs

reverse-count_results :
    (l : List ProbeResult) (round : Round)
    → reverse_onto (count_results l round).results []
      ≡ reverse_onto round.results (annotate round.failures l)
unfolding count_results count_result annotate
reverse-count_results [] round = refl
reverse-count_results (r ∷ rs) round = reverse-count_results rs (count_result r round)

ids-annotate : (l : List ProbeResult) (failures : String → ℕ) → ids (annotate failures l) ≡ ids l
unfolding annotate
ids-annotate [] failures = refl
ids-annotate (r ∷ rs) failures = ap (λ (l : List String). r.id ∷ l) (ids-annotate rs _)

annotate-valid :
    (l : List ProbeResult) (failures : String → ℕ)
    → IsCounted failures
    → all valid_result l ≡ true
    → all valid_result (annotate failures l) ≡ true
unfolding annotate
annotate-valid [] failures p v = refl
annotate-valid (r ∷ rs) failures p v =
    let c = next_count-le (is_healthy r) _ (p r.id) in
    let (this, others) = all-cons r rs v in
    and-true (annotated-valid r _ c this)
      (annotate-valid rs _ (set_count-IsCounted r.id _ failures c p) others)

-- `Update` keeps the counters at most 3 and the IDs of the results in order.
pub update-results :
    (l : List ProbeResult) (a : Aggregate)
    → IsCounted a.failures
    → IsCounted (update l a).1.failures × (ids (update l a).2 ≡ ids l)
unfolding update
update-results l a p = (
  count_results-IsCounted l (empty_round a) p,
  ap ids (reverse-count_results l (empty_round a)) ∙ ids-annotate l a.failures,
)

-- `Update` keeps valid results valid.
pub update-valid :
    (l : List ProbeResult) (a : Aggregate)
    → IsCounted a.failures
    → all valid_result l ≡ true
    → all valid_result (update l a).2 ≡ true
unfolding update
update-valid l a p v =
    ap (all valid_result) (reverse-count_results l (empty_round a))
    ∙ annotate-valid l a.failures p v
