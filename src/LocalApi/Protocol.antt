-- ===== src/LocalApi/Protocol.antt =====
-- internal/localapi/protocol.go: the frames of the local API. encoding/json is the parameter `Codec`;
-- a frame is a list of bytes.
pub mod Probes
pub mod Frames
pub mod Cache
mod Tests
use Prim.Native.String.{len}
use overseas.Base.{
  ℕ, ℤ, pos, is_negative, leb_int, ◌+◌, String, Bool, true, false, Option, none, some, List, [],
  ◌∷◌, ◌++◌, ◌&&◌, ◌||◌, not, str_eq, ltb, leb, ◌==◌, if◌then◌else◌, length, is_empty, map,
}
use overseas.Trace.Event.{is_member}
use overseas.LineProbe.Aggregate.{ProbeResult}
use overseas.LineProbe.Probe.{Target, targets}
use overseas.LocalApi.Projection.{LocalStatus, valid_status}

abbrev pub version : ℕ
version = 1

abbrev pub max_frame_bytes : ℕ
max_frame_bytes = 65536

pub data ProtocolError : Type 0 where
  frame_too_large invalid_request unsupported_version unsupported_action invalid_response
        mismatched_response_id not_encoded :
      ProtocolError

pub data Outcome (A : Type 0) : Type 0 where
  ok : A → Outcome A
  err : ProtocolError → Outcome A

pub record Request : Type 0 where
  pub version : ℤ
  pub id : String
  pub action : String
  pub duration_minutes : ℤ

pub record Response : Type 0 where
  pub version : ℤ
  pub id : String
  pub status : LocalStatus
  pub error_code : String
  pub probe_generation : ℕ
  pub probe_historical : Bool
  pub probe_results : List ProbeResult

-- What is left behind a decoded value.
pub data Rest : Type 0 where
  ended another malformed : Rest

-- encoding/json: a value from the head of the bytes with what is left, the next value of the bytes
-- that are left, and the bytes of a response. `is_control` finds a rune below 0x20 or 0x7f in a text.
pub record Codec : Type 0 where
  pub decode_request : List ℕ → Option (Request × List ℕ)
  pub decode_response : List ℕ → Option (Response × List ℕ)
  pub next_value : List ℕ → Rest
  pub marshal : Response → Option (List ℕ)
  pub has_control : String → Bool

abbrev pub is_ended : Rest → Bool
is_ended ended = true
is_ended another = false
is_ended malformed = false

abbrev pub is_int : ℕ → ℤ → Bool
is_int n (pos m) = m == n
is_int n m = false

-- The tests of one result in `validProbeResults`, but for its ID.
abbrev pub valid_errors : List String
valid_errors =
    "" ∷ "timeout" ∷ "canceled" ∷ "tls_error" ∷ "network_error" ∷ "http_server_error"
    ∷ "invalid_target" ∷ []

abbrev pub valid_failures : Option ℤ → Bool
valid_failures none = true
valid_failures (some n) = not (is_negative n) && leb_int n (pos 3)

unfoldable pub valid_result : ProbeResult → Bool
valid_result r =
    not (is_negative r.latency_ms)
    && (leb_int r.latency_ms (pos 5000)
        && (not (is_negative r.http_status)
            && (leb_int r.http_status (pos 599)
                && (not (r.checked_at == 0)
                    && (valid_failures r.consecutive_failures
                        && is_member r.error_code valid_errors)))))

-- `delete(ids, id)`
unfoldable pub delete : String → List String → List String
delete id [] = []
delete id (x ∷ xs) = let rest = delete id xs in if str_eq x id then rest else x ∷ rest

-- The loop over the results, with the IDs that are left.
unfoldable pub check_results : List String → List ProbeResult → Bool
check_results ids [] = true
check_results ids (r ∷ rs) =
    let rest = check_results (delete r.id ids) rs in
    if not (is_member r.id ids) || not (valid_result r) then false else rest

abbrev pub target_ids : List String
target_ids = map (λ (t : Target). t.id) targets

-- The results must be of the connected generation, or be marked as history.
unfoldable pub valid_history : Response → Bool
valid_history response =
    if str_eq response.status.state "connected"
    then not response.probe_historical && response.probe_generation == response.status.generation
    else response.probe_historical

unfoldable pub valid_probe_results : Response → Bool
valid_probe_results response =
    if is_empty response.probe_results
    then response.probe_generation == 0 && not response.probe_historical
    else if ltb (length targets) (length response.probe_results)
        || ltb response.status.generation response.probe_generation
    then false
    else if not (valid_history response)
    then false
    else check_results target_ids response.probe_results

module _ (codec : Codec) where
  -- `validID`
  unfoldable pub valid_id : String → Bool
  valid_id id = not (str_eq id "") && (leb (len id) 128 && not (codec.has_control id))

  -- `decodeOne`
  abbrev pub decode_one : {A : Type 0} → Option (A × List ℕ) → Option A
  decode_one none = none
  decode_one (some (a, rest)) = if is_ended (codec.next_value rest) then some a else none

  unfoldable pub check_action : Request → Outcome Request
  check_action request =
      if is_member request.action ("status" ∷ "connect" ∷ "disconnect" ∷ "probe" ∷ [])
      then if not (is_int 0 request.duration_minutes) then err invalid_request else ok request
      else if str_eq request.action "diagnostic-enable"
      then if not (is_int 15 request.duration_minutes)
          && (not (is_int 30 request.duration_minutes) && not (is_int 60 request.duration_minutes))
        then err invalid_request
        else ok request
      else err unsupported_action

  unfoldable pub check_request : Option Request → Outcome Request
  check_request none = err invalid_request
  check_request (some request) =
      if not (is_int version request.version)
      then err unsupported_version
      else if not (valid_id request.id)
      then err invalid_request
      else check_action request

  -- `DecodeRequest`
  unfoldable pub decode_request : List ℕ → Outcome Request
  decode_request frame =
      if ltb max_frame_bytes (length frame)
      then err frame_too_large
      else check_request (decode_one (codec.decode_request frame))

  unfoldable pub check_response : String → Option Response → Outcome Response
  check_response request_id none = err invalid_response
  check_response request_id (some response) =
      if not (is_int version response.version)
        || (not (valid_id response.id)
            || (not (valid_status response.status) || not (valid_probe_results response)))
      then err invalid_response
      else if not (str_eq response.id request_id)
      then err mismatched_response_id
      else ok response

  -- `DecodeResponse`
  unfoldable pub decode_response : List ℕ → String → Outcome Response
  decode_response frame request_id =
      if ltb max_frame_bytes (length frame)
      then err frame_too_large
      else check_response request_id (decode_one (codec.decode_response frame))

  unfoldable pub frame_of : Option (List ℕ) → Outcome (List ℕ)
  frame_of none = err not_encoded
  frame_of (some bytes) =
      if ltb max_frame_bytes (length bytes + 1)
      then err frame_too_large
      else ok (bytes ++ (10 ∷ []))

  -- `EncodeResponse`
  unfoldable pub encode_response : Response → Outcome (List ℕ)
  encode_response response =
      if not (valid_probe_results response)
      then err invalid_response
      else frame_of (codec.marshal response)

-- `StatusCache`; `none` while it is not present.
abbrev pub StatusCache : Type 0
StatusCache = Option LocalStatus

-- Whether a status is older than what the cache holds.
abbrev pub is_stale : StatusCache → LocalStatus → Bool
is_stale none status = false
is_stale (some held) status = ltb status.generation held.generation

-- `Apply`
unfoldable pub apply_status : LocalStatus → StatusCache → Bool × StatusCache
apply_status status cache =
    if not (valid_status status) || is_stale cache status
    then (false, cache)
    else (true, some status)
