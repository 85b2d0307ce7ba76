-- ===== src/LineProbe/Counts.antt =====
-- internal/lineprobe/aggregate.go: the counters against the streaks that they count.
use overseas.Base.{
  ℕ, ◌+◌, min, String, Bool, true, false, List, [], ◌∷◌, str_eq, if◌then◌else◌, ◌≡◌, arith, sym, ap,
  ◌∙◌, Bool-cases, inl, inr, eq_iff, if_true, if_false,
}
use overseas.LineProbe.Aggregate.{
  ProbeResult, Aggregate, Round, is_healthy, next_count, count_result, count_results, update,
  empty_round,
}

-- The length of the run of unsuccessful checks of a target, after `n` of them and then `results`.
pub streak : String → List ProbeResult → ℕ → ℕ
streak key [] n = n
streak key (r ∷ rs) n =
    if str_eq r.id key then streak key rs (if is_healthy r then 0 else n + 1) else streak key rs n

next_count-min :
    (b : Bool) (c n : ℕ) → c ≡ min 3 n → next_count b c ≡ min 3 (if b then 0 else n + 1)
next_count-min true c n h = omega arith
next_count-min false c n h = ground arith

module _ (key : String) where
  count_results-streak :
      (rs : List ProbeResult) (round : Round) (n : ℕ)
      → round.failures key ≡ min 3 n
      → (count_results rs round).failures key ≡ min 3 (streak key rs n)
  unfolding count_results count_result streak
  count_results-streak [] round n h = h
  count_results-streak (r ∷ rs) round n h = elim (Bool-cases (str_eq r.id key)) [
    | inl same ↦
        let k = (eq_iff r.id key).0 same in
        count_results-streak rs (count_result r round) (if is_healthy r then 0 else n + 1) (
          if_true _ _ same
          ∙ next_count-min (is_healthy r) (round.failures r.id) n (ap round.failures k ∙ h))
        ∙ ap (min 3) (sym (if_true _ _ same))
    | inr other ↦
        count_results-streak rs (count_result r round) n (if_false _ _ other ∙ h)
        ∙ ap (min 3) (sym (if_false _ _ other))
  ]

-- Where a target's counter holds the length of its run of unsuccessful checks, up to 3, it does so
-- after `Update`, whatever results the round has, in whatever order.
pub update-streak :
    (key : String) (results : List ProbeResult) (a : Aggregate) (n : ℕ)
    → a.failures key ≡ min 3 n
    → (update results a).1.failures key ≡ min 3 (streak key results n)
unfolding update
update-streak key results a n h = count_results-streak key results (empty_round a) n h
