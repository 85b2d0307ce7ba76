-- ===== src/LocalApi/Dispatch/Tests.antt =====
-- internal/agent/local_dispatch.go on a connected controller whose line was probed.
use overseas.Base.{List, all, ℕ, pos, true, false, none, some, [], ◌∷◌, ◌≡◌, refl}
use overseas.AccessModel.Model.{connected}
use overseas.Agent.Status.{plain_status}
use overseas.Agent.Env.{good}
use overseas.Agent.Readers.{LocalStatusSnapshot, Diagnostics}
use overseas.LineProbe.Scheduler.Demo.{published, published-Reach}
use overseas.LocalApi.Protocol.{
  Codec, Request, Response, ok, ended, valid_id, valid_result, encode_response, decode_response,
}
use overseas.LocalApi.Dispatch.{LocalHandler, dispatch, perform, attach_probes, attach}
use overseas.LocalApi.Dispatch.Valid.{FromScheduler, IsProper, dispatch-IsProper, dispatch-decodes}

abbrev seen : LocalStatusSnapshot
seen = record {
  status = plain_status connected "";
  generation = 1;
  quality = good;
  connected_at = 3;
}

abbrev handler : LocalHandler ℕ
handler = record {
  controller = record {
    connect = λ w. w;
    disconnect = λ w. w;
    diagnostics = λ w. (diagnosed, w);
    local_status = some (λ w. (seen, w));
  };
  line_probe = some (record { manual = λ w. w; snapshot = λ w. (published.last, w) });
  enable = none;
  format_time = λ t. "2026-01-01T00:00:00Z";
}
  where
    diagnosed : Diagnostics
    diagnosed = record {
      state = connected;
      error_code = seen.status.error_code;
      message = "";
      generation = 1;
      stage = "";
      detail = "";
    }

abbrev asked : Request
asked = record { version = pos 1; id = "r1"; action = "probe"; duration_minutes = pos 0 }

abbrev dispatched : Response
dispatched = (dispatch handler asked false 0).0

abbrev codec : Codec
codec = record {
  decode_request = λ bytes. some (asked, []);
  decode_response = λ bytes. some (dispatched, []);
  next_value = λ bytes. ended;
  marshal = λ r. some (123 ∷ 125 ∷ []);
  has_control = λ s. false;
}

probed : FromScheduler handler.line_probe
probed w = (published, published-Reach, refl)

id_accepted : valid_id codec "r1" ≡ true
unfolding valid_id
id_accepted = refl

dispatch-IsProper_example : IsProper asked (dispatch handler asked false 0).0
dispatch-IsProper_example = dispatch-IsProper handler asked false 0 probed

dispatched_valid : all valid_result dispatched.probe_results ≡ true
unfolding valid_result dispatch perform attach_probes attach overseas.LocalApi.Dispatch.conclude
    overseas.LocalApi.Dispatch.read_status overseas.LocalApi.Dispatch.shows
    overseas.LineProbe.Scheduler.advance overseas.LineProbe.Scheduler.advance_found
    overseas.LineProbe.Scheduler.find_flight overseas.LineProbe.Scheduler.answer
    overseas.LineProbe.Scheduler.receive_flight overseas.LineProbe.Scheduler.start
    overseas.LineProbe.Scheduler.begin_new overseas.LineProbe.Scheduler.advance_phase
    overseas.LineProbe.Scheduler.receive_phase overseas.LineProbe.Scheduler.judge_live
    overseas.LineProbe.Scheduler.conclude_live overseas.LineProbe.Aggregate.update
    overseas.LineProbe.Aggregate.count_results overseas.LineProbe.Scheduler.receive
    overseas.AccessModel.Model.state_text overseas.Agent.Readers.error_text
    overseas.LineProbe.Aggregate.count_result overseas.LineProbe.Aggregate.judge_round
    overseas.LineProbe.Scheduler.drop_flight overseas.LocalApi.Dispatch.ask_enable
    overseas.LocalApi.Dispatch.ask_probe overseas.LocalApi.Dispatch.plain_response
    overseas.LocalApi.Projection.project_status overseas.LocalApi.Projection.quality_text
dispatched_valid = refl

dispatch-decodes_example :
    (frame : List ℕ) × (encode_response codec dispatched ≡ ok frame)
    × (decode_response codec frame "r1" ≡ ok dispatched)
dispatch-decodes_example =
    dispatch-decodes handler asked false 0 codec (123 ∷ 125 ∷ []) probed id_accepted
      dispatched_valid refl refl (λ bytes e. ([], refl, refl))
