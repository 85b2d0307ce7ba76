-- ===== src/LineProbe/Probe.antt =====
-- internal/lineprobe/probe.go and targets.go: one check of a target. The HTTP client, the request's
-- parser and the clock (nanoseconds) are functions over a world `W`.
use overseas.Base.{
  ℕ, ℤ, pos, leb_int, ◌-◌, ◌/◌, String, Bool, true, false, none, List, [], ◌∷◌, ◌&&◌, ◌||◌, not,
  ltb, if◌then◌else◌,
}
use overseas.LineProbe.Aggregate.{ProbeResult}

pub record Target : Type 0 where
  pub id : String
  pub url : String

-- `Targets`
abbrev pub targets : List Target
targets =
    record { id = "google"; url = "https://www.google.com/" }
    ∷ record { id = "pinterest"; url = "https://www.pinterest.com/" }
    ∷ record { id = "gemini"; url = "https://gemini.google.com/" }
    ∷ record { id = "chatgpt"; url = "https://chatgpt.com/" }
    ∷ record { id = "claude"; url = "https://claude.ai/" }
    ∷ record { id = "tiktok"; url = "https://www.tiktok.com/" }
    ∷ record { id = "amazon"; url = "https://www.amazon.com/" }
    ∷ record { id = "facebook"; url = "https://www.facebook.com/" }
    ∷ []

-- `RoundBudget`, in milliseconds.
abbrev pub round_budget : ℕ
round_budget = 5000

-- What `errors.Is` and `errors.As` find of an error of the client.
pub record HttpError : Type 0 where
  pub is_deadline : Bool
  pub is_canceled : Bool
  pub is_certificate : Bool
  pub is_timeout : Bool
  pub is_eof : Bool  -- io.EOF or io.ErrUnexpectedEOF

pub data HttpAnswer : Type 0 where
  broke : HttpError → HttpAnswer
  answered : ℤ → HttpAnswer

pub data Method : Type 0 where
  head get : Method

abbrev pub is_head : Method → Bool
is_head head = true
is_head get = false

pub record Http (W : Type 0) : Type 0 where
  pub now : W → ℕ × W
  pub is_request : Method → String → Bool  -- a request can be made, by https and without a user
  pub send : Method → String → W → HttpAnswer × W

-- `probeError`
unfoldable pub probe_error : HttpError → String
probe_error e =
    if e.is_deadline
    then "timeout"
    else if e.is_canceled
    then "canceled"
    else if e.is_certificate
    then "tls_error"
    else if e.is_timeout
    then "timeout"
    else "network_error"

-- The latency between two times, held within the budget: a negative one is 0, as `-` stops there.
unfoldable pub latency : ℕ → ℕ → ℕ
latency started ended =
    let elapsed = (ended - started) / 1000000 in
    if ltb round_budget elapsed then round_budget else elapsed

abbrev pub is_reachable_status : ℤ → Bool
is_reachable_status status = leb_int (pos 200) status && not (leb_int (pos 500) status)

abbrev pub is_method_not_allowed : ℤ → Bool
is_method_not_allowed status = leb_int (pos 405) status && leb_int status (pos 405)

-- How a round of the loop over the methods ends.
pub data Attempt : Type 0 where
  done : ProbeResult → Attempt
  again : ProbeResult → Attempt

unfoldable pub judge_answer : Method → HttpAnswer → ProbeResult → Attempt
unfolding probe_error
judge_answer method (broke e) r =
    if is_head method && e.is_eof
    then again r
    else done (record r { is_reachable = false; error_code = probe_error e })
judge_answer method (answered status) r =
    let reachable = is_reachable_status status in
    let s = record r {
      is_reachable = reachable;
      http_status = status;
      error_code = if reachable then r.error_code else "http_server_error";
    } in
    if not (is_method_not_allowed status) || not (is_head method) then done s else again s

module _ {W : Type 0} (h : Http W) where
  -- The loop's body.
  unfoldable pub attempt : Method → String → ProbeResult → W → Attempt × W
  unfolding latency
  attempt method url r w =
      let (started, w₁) = h.now w in
      let checked = record r { checked_at = started } in
      if not (h.is_request method url)
      then (done (record checked { error_code = "invalid_target" }), w₁)
      else let (answer, w₂) = h.send method url w₁ in
        let (ended, w₃) = h.now w₂ in
        (
          judge_answer method answer (record checked { latency_ms = pos (latency started ended) }),
          w₃,
        )

  abbrev pub empty_result : String → ProbeResult
  empty_result id = record {
    id = id;
    is_reachable = false;
    http_status = pos 0;
    latency_ms = pos 0;
    error_code = "";
    checked_at = 0;
    consecutive_failures = none;
  }

  abbrev pub result_of : Attempt × W → ProbeResult × W
  result_of (done r, w) = (r, w)
  result_of (again r, w) = (r, w)

  unfoldable pub after_head : String → Attempt × W → ProbeResult × W
  after_head url (done r, w) = (r, w)
  after_head url (again r, w) = result_of (attempt get url r w)

  -- `Probe`
  unfoldable pub probe : Target → W → ProbeResult × W
  probe target w = after_head target.url (attempt head target.url (empty_result target.id) w)
