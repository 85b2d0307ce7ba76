-- ===== src/LocalApi/Projection.antt =====
-- internal/localapi/projection.go: the status of the controller, as the local API words it.
use overseas.Base.{
  ℕ, String, Bool, true, List, [], ◌∷◌, ◌&&◌, ◌||◌, str_eq, if◌then◌else◌, ◌≡◌, refl,
}
use overseas.AccessModel.Model.{
  ConnectionState, state_text, preparing, prepared, disconnected, connecting, connected, restoring,
  failed_safe, failed as broken,
}
use overseas.Trace.Event.{is_member}
use overseas.Agent.Env.{LineQuality, unknown, good, slow, failed}

pub record ProjectionInput : Type 0 where
  pub state : String
  pub quality : String
  pub error_code : String
  pub connected_at : String
  pub generation : ℕ

-- `localapi.Status`
pub record LocalStatus : Type 0 where
  pub state : String
  pub quality : String
  pub error_code : String
  pub connected_at : String
  pub generation : ℕ

-- The switch of `ProjectStatus`.
abbrev pub project_state : String → String
project_state state =
    if str_eq state "prepared" || str_eq state "disconnected"
    then "idle"
    else if str_eq state "failed_safe" || str_eq state "failed"
    then "needs_action"
    else state

unfoldable pub project_status : ProjectionInput → LocalStatus
project_status input = record {
  state = project_state input.state;
  quality = if str_eq input.quality "" then "unknown" else input.quality;
  error_code = input.error_code;
  connected_at = input.connected_at;
  generation = input.generation;
}

abbrev pub valid_states : List String
valid_states = "idle" ∷ "preparing" ∷ "connecting" ∷ "connected" ∷ "restoring" ∷ "needs_action" ∷ []

abbrev pub valid_qualities : List String
valid_qualities = "unknown" ∷ "good" ∷ "slow" ∷ "failed" ∷ []

unfoldable pub valid_status : LocalStatus → Bool
valid_status s = is_member s.state valid_states && is_member s.quality valid_qualities

-- The `LineQuality…` constants of internal/agent.
unfoldable pub quality_text : LineQuality → String
quality_text unknown = "unknown"
quality_text good = "good"
quality_text slow = "slow"
quality_text failed = "failed"

-- Whatever state and quality the controller has, the status that the local API projects from them
-- passes the API's own check.
pub project_status-valid :
    (state : ConnectionState) (quality : LineQuality) (error_code connected_at : String)
    (generation : ℕ)
    → valid_status (
        project_status (record {
          state = state_text state;
          quality = quality_text quality;
          error_code = error_code;
          connected_at = connected_at;
          generation = generation;
        }))
      ≡ true
unfolding project_status valid_status state_text quality_text
project_status-valid state quality error_code connected_at generation = by_cases state quality
  where
    by_cases :
        (state : ConnectionState) (quality : LineQuality)
        → (is_member (project_state (state_text state)) valid_states
            && is_member
                (if str_eq (quality_text quality) "" then "unknown" else quality_text quality)
                valid_qualities)
          ≡ true
    by_cases preparing unknown = refl
    by_cases preparing good = refl
    by_cases preparing slow = refl
    by_cases preparing failed = refl
    by_cases prepared unknown = refl
    by_cases prepared good = refl
    by_cases prepared slow = refl
    by_cases prepared failed = refl
    by_cases disconnected unknown = refl
    by_cases disconnected good = refl
    by_cases disconnected slow = refl
    by_cases disconnected failed = refl
    by_cases connecting unknown = refl
    by_cases connecting good = refl
    by_cases connecting slow = refl
    by_cases connecting failed = refl
    by_cases connected unknown = refl
    by_cases connected good = refl
    by_cases connected slow = refl
    by_cases connected failed = refl
    by_cases restoring unknown = refl
    by_cases restoring good = refl
    by_cases restoring slow = refl
    by_cases restoring failed = refl
    by_cases failed_safe unknown = refl
    by_cases failed_safe good = refl
    by_cases failed_safe slow = refl
    by_cases failed_safe failed = refl
    by_cases broken unknown = refl
    by_cases broken good = refl
    by_cases broken slow = refl
    by_cases broken failed = refl
