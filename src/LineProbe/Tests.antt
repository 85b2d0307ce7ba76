-- ===== src/LineProbe/Tests.antt =====
-- internal/lineprobe/aggregate.go on two rounds.
use overseas.Base.{pos, String, Bool, true, false, none, List, [], ◌∷◌, ◌≡◌, refl, min, arith}
use overseas.Agent.Env.{failed}
use overseas.LineProbe.Aggregate.{
  ProbeResult, Aggregate, update, count_results, count_result, judge_round,
}
use overseas.LineProbe.Counts.{streak, update-streak}

abbrev check_of : String → Bool → ProbeResult
check_of id reachable = record {
  id = id;
  is_reachable = reachable;
  http_status = pos 204;
  latency_ms = pos 30;
  error_code = "";
  checked_at = 1;
  consecutive_failures = none;
}

abbrev two_failures : Aggregate
two_failures = record { failures = λ key. 2; quality = none }

abbrev demo_round : List ProbeResult
demo_round = check_of "a" false ∷ check_of "b" false ∷ check_of "c" true ∷ []

demo_quality : (update demo_round two_failures).0 ≡ failed
unfolding update count_results count_result judge_round
demo_quality = refl

update-streak_example :
    (update demo_round two_failures).1.failures "a" ≡ min 3 (streak "a" demo_round 2)
update-streak_example = update-streak "a" demo_round two_failures 2 (omega arith)
