-- ===== src/LocalApi/Dispatch.antt =====
-- internal/agent/local_dispatch.go: the answer to a request of the local API. The controller, the
-- scheduler of probes and the diagnostic mode are calls over a world `W` that others change as well.
pub mod Valid
mod Tests
use overseas.Base.{
  ℕ, ℤ, pos, String, Bool, true, false, Option, none, some, List, [], ◌&&◌, ◌||◌, not, str_eq, leb,
  ◌==◌, if◌then◌else◌, is_empty,
}
use overseas.AccessModel.Model.{ConnectionState, is_connected, is_connecting, state_text}
use overseas.Agent.Status.{plain_status}
use overseas.Agent.Env.{LineQuality, unknown}
use overseas.Agent.Readers.{Diagnostics, LocalStatusSnapshot, error_text}
use overseas.LineProbe.Scheduler.{Snapshot}
use overseas.LocalApi.Projection.{project_status, quality_text}
use overseas.LocalApi.Protocol.{Request, Response, version}

-- A `PipeController`; `local_status` is that of a `pipeV1SnapshotProvider`.
pub record PipeController (W : Type 0) : Type 0 where
  pub connect : W → W
  pub disconnect : W → W
  pub diagnostics : W → Diagnostics × W
  pub local_status : Option (W → LocalStatusSnapshot × W)

pub record LineProbe (W : Type 0) : Type 0 where
  pub manual : W → W
  pub snapshot : W → Snapshot × W

-- `LocalHandler`; `enable` answers whether the diagnostic mode could be enabled for the minutes, and
-- `format_time` is the RFC 3339 text of a time.
pub record LocalHandler (W : Type 0) : Type 0 where
  pub controller : PipeController W
  pub line_probe : Option (LineProbe W)
  pub enable : Option (ℤ → W → Bool × W)
  pub format_time : ℕ → String

-- What a controller without snapshots is taken to say.
abbrev pub snapshot_of : Diagnostics → LocalStatusSnapshot
snapshot_of d = record {
  status = record (plain_status d.state "") { error_code = d.error_code };
  generation = d.generation;
  quality = unknown;
  connected_at = 0;
}

-- The results that a response may carry beside the status.
unfoldable pub shows : LocalStatusSnapshot → Snapshot → Bool
shows seen probes =
    not (is_empty probes.results)
    && (leb probes.generation seen.generation
        && (not (is_connected seen.status.state) || probes.generation == seen.generation))

unfoldable pub attach : LocalStatusSnapshot → Snapshot → Response → Response
attach seen probes response =
    if shows seen probes
    then record response {
      probe_generation = probes.generation;
      probe_results = probes.results;
      probe_historical = not (is_connected seen.status.state);
    }
    else response

-- A probe that has nothing to show was not available.
unfoldable pub conclude : Request → Response → Response
conclude request response =
    if str_eq request.action "probe" && is_empty response.probe_results
    then record response { error_code = "probe_unavailable" }
    else response

module _ {W : Type 0} where
  unfoldable pub read_status :
      Option (W → LocalStatusSnapshot × W) → (W → Diagnostics × W) → W → LocalStatusSnapshot × W
  read_status (some provider) diagnostics w = provider w
  read_status none diagnostics w = let (d, later) = diagnostics w in (snapshot_of d, later)

  -- `v1SnapshotFor`
  abbrev pub snapshot_for : PipeController W → W → LocalStatusSnapshot × W
  snapshot_for c w = read_status c.local_status c.diagnostics w

  unfoldable pub ask_probe : PipeController W → Option (LineProbe W) → W → String × W
  ask_probe c none w = ("probe_unavailable", w)
  ask_probe c (some probe) w =
      let (seen, later) = snapshot_for c w in
      if not (is_connected seen.status.state)
      then ("probe_unavailable", later)
      else ("", probe.manual later)

  unfoldable pub ask_enable : Option (ℤ → W → Bool × W) → ℤ → W → String × W
  ask_enable none minutes w = ("diagnostic_unavailable", w)
  ask_enable (some enable) minutes w =
      let (enabled, later) = enable minutes w in
      (if enabled then "" else "diagnostic_unavailable", later)

  -- The switch over the request's action: the error of the response.
  unfoldable pub perform : LocalHandler W → Request → Bool → W → String × W
  perform s request administrator w =
      if str_eq request.action "connect"
      then ("", s.controller.connect w)
      else if str_eq request.action "disconnect"
      then ("", s.controller.disconnect w)
      else if str_eq request.action "status"
      then ("", w)
      else if str_eq request.action "probe"
      then ask_probe s.controller s.line_probe w
      else if str_eq request.action "diagnostic-enable"
      then if not administrator
        then ("permission_denied", w)
        else ask_enable s.enable request.duration_minutes w
      else ("", w)

  unfoldable pub attach_probes :
      Option (LineProbe W) → LocalStatusSnapshot → Response → W → Response × W
  attach_probes none seen response w = (response, w)
  attach_probes (some probe) seen response w =
      let (probes, later) = probe.snapshot w in
      if not (is_connecting seen.status.state)
      then (attach seen probes response, later)
      else (response, w)

  unfoldable pub plain_response : LocalHandler W → Request → String → LocalStatusSnapshot → Response
  plain_response s request error seen = record {
    version = pos version;
    id = request.id;
    status = project_status (record {
      state = state_text seen.status.state;
      quality = quality_text seen.quality;
      error_code = error_text seen.status.error_code;
      connected_at = if seen.connected_at == 0 then "" else s.format_time seen.connected_at;
      generation = seen.generation;
    });
    error_code = error;
    probe_generation = 0;
    probe_historical = false;
    probe_results = [];
  }

  -- `Dispatch`
  unfoldable pub dispatch : LocalHandler W → Request → Bool → W → Response × W
  dispatch s request administrator w =
      let (error, w₁) = perform s request administrator w in
      let (seen, w₂) = snapshot_for s.controller w₁ in
      let (response, w₃) =
        attach_probes s.line_probe seen (plain_response s request error seen) w₂ in
      (conclude request response, w₃)
