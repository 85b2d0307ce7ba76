-- ===== src/LineProbe/Scheduler/Tests.antt =====
-- internal/lineprobe/scheduler.go: what the history of `Demo` ends with.
use overseas.Base.{true, all, ◌≡◌}
use overseas.LineProbe.Scheduler.Histories.{
  IsOrdered, SchedulerReach-IsOrdered, SchedulerReach-valid,
}
use overseas.LineProbe.Scheduler.Rounds.{IsSingle}
use overseas.LineProbe.Scheduler.SingleRound.{SchedulerReach-IsSingle}
use overseas.LineProbe.Scheduler.Demo.{published, published-Reach, published-AllTrusted}
use overseas.LocalApi.Protocol.{valid_result}

SchedulerReach-IsOrdered_example : IsOrdered published
SchedulerReach-IsOrdered_example = SchedulerReach-IsOrdered published-Reach

SchedulerReach-valid_example : all valid_result published.last.results ≡ true
SchedulerReach-valid_example = SchedulerReach-valid published-Reach published-AllTrusted

SchedulerReach-IsSingle_example : IsSingle published
SchedulerReach-IsSingle_example = SchedulerReach-IsSingle published-Reach
