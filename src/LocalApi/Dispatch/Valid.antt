-- ===== src/LocalApi/Dispatch/Valid.antt =====
-- internal/agent/local_dispatch.go against internal/localapi/protocol.go: what the protocol's tests say
-- of the answers of `Dispatch`.
use mathlib.Core.Path.{subst}
use overseas.Base.{
  ltb, ◌+◌, ◌++◌, ◌⊎◌, ℕ, pos, String, Bool, true, false, Option, none, some, List, [], ◌∷◌, ◌&&◌,
  not, str_eq, if_both, is_empty, length, all, ◌≡◌, inl, inr, refl, sym, ap, ◌∙◌, arith, eq_iff,
}
use overseas.AccessModel.Model.{
  ConnectionState, is_connected, is_connecting, state_text, preparing, prepared, disconnected,
  connecting, connected, restoring, failed_safe, failed,
}
use overseas.Trace.Event.{is_member}
use overseas.Agent.Readers.{LocalStatusSnapshot}
use overseas.LineProbe.Aggregate.{ProbeResult}
use overseas.LineProbe.Scheduler.{Snapshot, Scheduler, new_scheduler}
use overseas.LineProbe.Scheduler.Annotate.{ids}
use overseas.LineProbe.Scheduler.Histories.{SchedulerReach, SchedulerReach-IsOrdered}
use overseas.LocalApi.Projection.{project_status, project_state, valid_status, project_status-valid}
use overseas.LocalApi.Protocol.{
  Codec, Request, Response, ok, valid_result, delete, check_results, frame_of, max_frame_bytes,
  target_ids, valid_history, valid_probe_results, valid_id, encode_response, decode_response,
}
use overseas.LocalApi.Protocol.Frames.{ReadsBack, decode-encode}
use overseas.LocalApi.Dispatch.{
  LocalHandler, LineProbe, shows, attach, attach_probes, plain_response, conclude, dispatch,
  snapshot_for, perform,
}

-- Names without a repetition.
abbrev is_distinct : List String → Bool
is_distinct [] = true
is_distinct (x ∷ xs) = not (is_member x xs) && is_distinct xs

delete-absent : (x : String) (l : List String) → is_member x l ≡ false → delete x l ≡ l
unfolding delete
delete-absent x [] h = refl
delete-absent x (y ∷ ys) h = ground (arith, delete-absent x ys)

check-distinct :
    (l : List ProbeResult)
    → is_distinct (ids l) ≡ true
    → check_results (ids l) l ≡ all valid_result l
unfolding check_results delete
check-distinct [] d = refl
check-distinct (r ∷ rs) d =
    let same = (eq_iff r.id r.id).1 refl in
    ground (arith, same, delete-absent r.id (ids rs), check-distinct rs)

-- The results of a scheduler, if it has any: one of each target, in their order.
abbrev IsOfTargets : List ProbeResult → Type 0
IsOfTargets l = ids l ≡ target_ids

of_targets-length : (l : List ProbeResult) → IsOfTargets l → length l ≡ 8
of_targets-length l h = length-ids l ∙ ap length h
  where
    length-ids : (l : List ProbeResult) → length l ≡ length (ids l)
    length-ids [] = refl
    length-ids (r ∷ rs) = omega (arith, length-ids rs)

of_targets-checked :
    (l : List ProbeResult) → IsOfTargets l → check_results target_ids l ≡ all valid_result l
of_targets-checked l same =
    subst (λ names. check_results names l ≡ all valid_result l) same
      (check-distinct l (subst (λ names. is_distinct names ≡ true) (sym same) refl))

-- The protocol's test of a response's results finds nothing wrong but a result that is invalid.
abbrev pub IsFitting : Response → Type 0
IsFitting r = valid_probe_results r ≡ all valid_result r.probe_results

-- The projection words `connected` of that state alone.
project-connected :
    (state : ConnectionState)
    → str_eq (project_state (state_text state)) "connected" ≡ is_connected state
unfolding state_text
project-connected preparing = refl
project-connected prepared = refl
project-connected disconnected = refl
project-connected connecting = refl
project-connected connected = refl
project-connected restoring = refl
project-connected failed_safe = refl
project-connected failed = refl

-- A response to what was seen of the controller, without results.
record IsAnswer (seen : LocalStatusSnapshot) (r : Response) : Type 0 where
  generation : r.status.generation ≡ seen.generation
  state : r.status.state ≡ project_state (state_text seen.status.state)
  probes : IsFitting r

attach-IsFitting :
    (seen : LocalStatusSnapshot) (probes : Snapshot) (r : Response)
    → (probes.results ≡ []) ⊎ IsOfTargets probes.results
    → IsAnswer seen r
    → IsFitting (attach seen probes r)
unfolding attach shows valid_probe_results valid_history
attach-IsFitting seen probes r (inl e) p = ground (arith, p.probes, e)
attach-IsFitting seen probes r (inr targets) p =
    let connects = project-connected seen.status.state in
    ground (
      arith,
      p.generation,
      p.state,
      p.probes,
      connects,
      of_targets-length probes.results targets,
      of_targets-checked probes.results targets,
    )

-- Every snapshot that the line probe shows is that of a scheduler, after some history.
abbrev pub FromScheduler : {W : Type 0} → Option (LineProbe W) → Type 0
FromScheduler none = Unit
FromScheduler {W} (some probe) =
    (w : W) → (s : Scheduler) × SchedulerReach new_scheduler s × ((probe.snapshot w).0 ≡ s.last)

-- A response that a client takes for an answer to the request.
pub record IsProper (request : Request) (r : Response) : Type 0 where
  pub version : r.version ≡ pos 1
  pub id : r.id ≡ request.id
  pub status : valid_status r.status ≡ true
  pub probes : IsFitting r

attach-keeps :
    (seen : LocalStatusSnapshot) (probes : Snapshot) (r : Response)
    → ((attach seen probes r).version ≡ r.version)
      × ((attach seen probes r).id ≡ r.id)
      × ((attach seen probes r).status ≡ r.status)
unfolding attach
attach-keeps seen probes r = ground arith

attach-IsProper :
    (request : Request) (seen : LocalStatusSnapshot) (probes : Snapshot) (r : Response)
    → (probes.results ≡ []) ⊎ IsOfTargets probes.results
    → IsAnswer seen r
    → IsProper request r
    → IsProper request (attach seen probes r)
attach-IsProper request seen probes r h a p =
    let (v, i, t) = attach-keeps seen probes r in
    record {
      version = v ∙ p.version;
      id = i ∙ p.id;
      status = ap valid_status t ∙ p.status;
      probes = attach-IsFitting seen probes r h a;
    }

conclude-IsProper :
    (request : Request) (r : Response) → IsProper request r → IsProper request (conclude request r)
unfolding conclude valid_probe_results valid_history
conclude-IsProper request r p =
    if_both (IsProper request) (str_eq request.action "probe" && is_empty r.probe_results)
      (λ _. record { version = p.version; id = p.id; status = p.status; probes = p.probes })
      (λ _. p)

response-encodes :
    (codec : Codec) (r : Response) (bytes : List ℕ)
    → valid_probe_results r ≡ true
    → codec.marshal r ≡ some bytes
    → ltb (length bytes) max_frame_bytes ≡ true
    → encode_response codec r ≡ ok (bytes ++ (10 ∷ []))
unfolding encode_response frame_of
response-encodes codec r bytes probes m small =
    let fits : ltb max_frame_bytes (length bytes + 1) ≡ false = ground arith in
    rw (probes, m, fits) refl

module _ {W : Type 0} where
  plain-IsAnswer :
      (s : LocalHandler W) (request : Request) (error : String) (seen : LocalStatusSnapshot)
      → IsAnswer seen (plain_response s request error seen)
  unfolding plain_response project_status valid_probe_results
  plain-IsAnswer s request error seen = record { generation = refl; state = refl; probes = refl }

  plain-IsProper :
      (s : LocalHandler W) (request : Request) (error : String) (seen : LocalStatusSnapshot)
      → IsProper request (plain_response s request error seen)
  unfolding plain_response valid_probe_results
  plain-IsProper s request error seen = record {
    version = refl;
    id = refl;
    status = project_status-valid seen.status.state seen.quality _ _ seen.generation;
    probes = refl;
  }

  attach_probes-IsProper :
      (o : Option (LineProbe W)) (request : Request) (seen : LocalStatusSnapshot) (r : Response)
      (w : W)
      → FromScheduler o
      → IsAnswer seen r
      → IsProper request r
      → IsProper request (attach_probes o seen r w).0
  unfolding attach_probes
  attach_probes-IsProper none request seen r w h a p = p
  attach_probes-IsProper (some probe) request seen r w h a p =
      let (t, reach, same) = h w in
      if_both (λ (x : Response × W). IsProper request x.0) (not (is_connecting seen.status.state))
        (λ _.
          attach-IsProper request seen (probe.snapshot w).0 r
            (subst (λ (x : Snapshot). (x.results ≡ []) ⊎ IsOfTargets x.results) (sym same)
              (SchedulerReach-IsOrdered reach).shown)
            a p)
        (λ _. p)

-- Where the line probe's snapshots are those of its scheduler after some history, every answer of
-- `Dispatch` has version 1, the request's ID and a status that passes the protocol's test, and its
-- probe results pass theirs exactly if each of them is a valid result, whatever the request asks and
-- whatever the controller does.
pub dispatch-IsProper :
    {W : Type 0} (s : LocalHandler W) (request : Request) (administrator : Bool) (w : W)
    → FromScheduler s.line_probe
    → IsProper request (dispatch s request administrator w).0
unfolding dispatch
dispatch-IsProper s request administrator w h =
    let (error, w₁) = perform s request administrator w in
    let (seen, w₂) = snapshot_for s.controller w₁ in
    conclude-IsProper request _ (
      attach_probes-IsProper s.line_probe request _ _ _ h (plain-IsAnswer s request _ _)
        (plain-IsProper s request _ _))

-- Where the line probe's snapshots are those of its scheduler, the request's ID is valid, each probe
-- result of the answer is valid, and encoding/json writes the answer in fewer bytes than a frame may
-- have and reads back what it wrote: `EncodeResponse` gives a frame of what `Dispatch` answers, and the
-- client that asked decodes the frame to this answer.
pub dispatch-decodes :
    {W : Type 0} (s : LocalHandler W) (request : Request) (administrator : Bool) (w : W)
    (codec : Codec) (bytes : List ℕ)
    → FromScheduler s.line_probe
    → valid_id codec request.id ≡ true
    → all valid_result (dispatch s request administrator w).0.probe_results ≡ true
    → codec.marshal (dispatch s request administrator w).0 ≡ some bytes
    → ltb (length bytes) max_frame_bytes ≡ true
    → ReadsBack codec (dispatch s request administrator w).0
    → (frame : List ℕ) × (encode_response codec (dispatch s request administrator w).0 ≡ ok frame)
      × (decode_response codec frame request.id ≡ ok (dispatch s request administrator w).0)
dispatch-decodes s request administrator w codec bytes h i valid m small back =
    let p = dispatch-IsProper s request administrator w h in
    let r = (dispatch s request administrator w).0 in
    let e = response-encodes codec r bytes (p.probes ∙ valid) m small in
    (
      bytes ++ (10 ∷ []),
      e,
      subst (λ id. decode_response codec (bytes ++ (10 ∷ [])) id ≡ ok r) p.id
          (decode-encode codec r back p.version (ap (valid_id codec) p.id ∙ i) p.status e),
    )
