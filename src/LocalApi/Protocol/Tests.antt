-- ===== src/LocalApi/Protocol/Tests.antt =====
-- internal/localapi/protocol.go on a small codec.
use overseas.Base.{
  ℕ, pos, ◌+◌, ◌≤◌, true, false, none, some, List, [], ◌∷◌, ◌≡◌, refl, arith, length,
}
use overseas.LineProbe.Aggregate.{ProbeResult}
use overseas.LineProbe.Probe.{Http, answered, Target, probe}
use overseas.LocalApi.Projection.{LocalStatus, valid_status}
use overseas.LocalApi.Protocol.{
  Codec, Request, Response, ok, err, invalid_response, ended, encode_response, frame_of,
  decode_response, check_response, decode_request, check_request, check_action, valid_id,
  valid_probe_results, valid_history, check_results, delete, valid_result, max_frame_bytes,
}
use overseas.LocalApi.Protocol.Probes.{probe-valid}
use overseas.LocalApi.Protocol.Frames.{
  decode-encode, encode_response-over_599, decode_response-accepts, decode_request-accepts,
  HasDuration,
}
use overseas.LocalApi.Protocol.Cache.{apply_all, apply_all-newest, IsHeld, Covers}

-- A world of seconds, in which every site answers 204.
abbrev demo_http : Http ℕ
demo_http = record {
  now = λ w. (w + 1, w + 1);
  is_request = λ m url. true;
  send = λ m url w. (answered (pos 204), w);
}

abbrev google : Target
google = record { id = "google"; url = "https://www.google.com/" }

probe-valid_example :
    ((probe demo_http google 7).0.id ≡ "google")
    × (valid_result (probe demo_http google 7).0 ≡ true)
probe-valid_example = probe-valid demo_http (λ w. omega arith) (λ m url w. refl) google 7

abbrev demo_status : LocalStatus
demo_status = record {
  state = "connected";
  quality = "good";
  error_code = "";
  connected_at = "";
  generation = 4;
}

abbrev demo_result : ℕ → ProbeResult
demo_result status = record {
  id = "google";
  is_reachable = true;
  http_status = pos status;
  latency_ms = pos 30;
  error_code = "";
  checked_at = 9;
  consecutive_failures = some (pos 0);
}

abbrev demo_response : ℕ → Response
demo_response status = record {
  version = pos 1;
  id = "r1";
  status = demo_status;
  error_code = "";
  probe_generation = 4;
  probe_historical = false;
  probe_results = demo_result status ∷ [];
}

abbrev demo_request : Request
demo_request = record {
  version = pos 1;
  id = "r1";
  action = "diagnostic-enable";
  duration_minutes = pos 30;
}

abbrev demo_codec : Codec
demo_codec = record {
  decode_request = λ bytes. some (demo_request, []);
  decode_response = λ bytes. some (demo_response 200, []);
  next_value = λ bytes. ended;
  marshal = λ r. some (123 ∷ 125 ∷ []);
  has_control = λ s. false;
}

abbrev demo_frame : List ℕ
demo_frame = 123 ∷ 125 ∷ 10 ∷ []

encoded : encode_response demo_codec (demo_response 200) ≡ ok demo_frame
unfolding encode_response frame_of valid_probe_results valid_history check_results delete
    valid_result
encoded = refl

id_accepted : valid_id demo_codec "r1" ≡ true
unfolding valid_id
id_accepted = refl

status_accepted : valid_status demo_status ≡ true
unfolding valid_status
status_accepted = refl

decoded : decode_response demo_codec demo_frame "r1" ≡ ok (demo_response 200)
unfolding decode_response check_response valid_id valid_status valid_probe_results valid_history
    check_results delete valid_result
decoded = refl

requested : decode_request demo_codec demo_frame ≡ ok demo_request
unfolding decode_request check_request valid_id check_action
requested = refl

decode-encode_example : decode_response demo_codec demo_frame "r1" ≡ ok (demo_response 200)
decode-encode_example =
    decode-encode demo_codec (demo_response 200) (λ bytes e. ([], refl, refl)) refl id_accepted
      status_accepted encoded

encode_response-over_599_example :
    encode_response demo_codec (demo_response 999) ≡ err invalid_response
encode_response-over_599_example = encode_response-over_599 demo_codec (demo_response 999) refl

decode_response-accepts_example :
    (length demo_frame ≤ max_frame_bytes)
    × ((demo_response 200).id ≡ "r1")
    × ((demo_response 200).version ≡ pos 1)
    × (valid_id demo_codec (demo_response 200).id ≡ true)
    × (valid_status (demo_response 200).status ≡ true)
    × (valid_probe_results (demo_response 200) ≡ true)
decode_response-accepts_example = decode_response-accepts demo_codec demo_frame "r1" decoded

decode_request-accepts_example :
    (length demo_frame ≤ max_frame_bytes)
    × (demo_request.version ≡ pos 1)
    × (valid_id demo_codec demo_request.id ≡ true)
    × HasDuration demo_request
decode_request-accepts_example = decode_request-accepts demo_codec demo_frame requested

apply_all-newest_example :
    IsHeld (apply_all (demo_status ∷ record demo_status { generation = 2 } ∷ []) none)
    × Covers
        (demo_status ∷ record demo_status { generation = 2 } ∷ [])
        (apply_all (demo_status ∷ record demo_status { generation = 2 } ∷ []) none)
apply_all-newest_example =
    apply_all-newest (demo_status ∷ record demo_status { generation = 2 } ∷ [])
