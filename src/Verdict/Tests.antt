-- ===== src/Verdict/Tests.antt =====
-- internal/verdict/verdict.go on the evidence of `Demo`.
use overseas.Base.{String, ◌≡◌, ◌↔◌}
use overseas.Config.{Config}
use overseas.Verdict.Evidence.{Artifacts, fail_leak}
use overseas.Verdict.Evaluate.{evaluate}
use overseas.Verdict.Passes.{IsComplete, IsProven, evaluate-IsProven}
use overseas.Verdict.Leaks.{IsLeak, evaluate-IsLeak_iff}
use overseas.Verdict.Demo.{verdict_env, demo_evidence, leaking_evidence, demo_passes}

evaluate-IsProven_example :
    (c : Config) × (digest : String) × (a : Artifacts) × IsComplete verdict_env demo_evidence c
      digest a
    × IsProven verdict_env c a
evaluate-IsProven_example = evaluate-IsProven verdict_env demo_evidence demo_passes

evaluate-IsLeak_iff_example :
    ((evaluate verdict_env leaking_evidence).code ≡ fail_leak) ↔ IsLeak verdict_env leaking_evidence
evaluate-IsLeak_iff_example = evaluate-IsLeak_iff verdict_env leaking_evidence
