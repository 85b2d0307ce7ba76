-- ===== src/LocalApi/Tests.antt =====
-- internal/localapi/projection.go at one status.
use overseas.Base.{true, ◌≡◌}
use overseas.AccessModel.Model.{failed_safe, state_text}
use overseas.Agent.Env.{slow}
use overseas.LocalApi.Projection.{valid_status, project_status, quality_text, project_status-valid}

project_status-valid_example :
    valid_status (
      project_status (record {
        state = state_text failed_safe;
        quality = quality_text slow;
        error_code = "restore_failed";
        connected_at = "";
        generation = 3;
      }))
    ≡ true
project_status-valid_example = project_status-valid failed_safe slow "restore_failed" "" 3
