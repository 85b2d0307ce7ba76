-- ===== src/LineProbe/Scheduler/Demo.antt =====
-- internal/lineprobe/scheduler.go: a history in which a round starts, is answered and published.
use overseas.Base.{pos, true, false, none, refl, arith}
use overseas.LineProbe.Aggregate.{ProbeResult}
use overseas.LineProbe.Scheduler.{Scheduler, new_scheduler, start, answer, advance}
use overseas.LineProbe.Scheduler.Histories.{
  AllTrusted, starts, answers, advances, SchedulerReach, at_start, then_step,
}
use overseas.LocalApi.Protocol.{valid_result}

abbrev good_result : ProbeResult
good_result = record {
  id = "google";
  is_reachable = true;
  http_status = pos 204;
  latency_ms = pos 30;
  error_code = "";
  checked_at = 9;
  consecutive_failures = none;
}

abbrev pub started : Scheduler
started = start 5 false 1 new_scheduler

abbrev pub published : Scheduler
published = advance 0 true (advance 0 true (answer 0 0 good_result started))

abbrev pub published-Reach : SchedulerReach new_scheduler published
published-Reach =
    then_step
      (then_step
        (then_step (then_step at_start (starts 5 false 1 (omega arith) refl))
          (answers 0 0 good_result refl))
        (advances 0 true refl))
      (advances 0 true refl)

pub published-AllTrusted : AllTrusted published-Reach
unfolding valid_result
published-AllTrusted = ((((tt, tt), refl), tt), tt)
