-- ===== src/LocalApi/Protocol/Frames.antt =====
-- internal/localapi/protocol.go: what is encoded is decoded, and what is decoded is valid.
use mathlib.Core.Path.{subst}
use overseas.Base.{
  ltb→ge, ℕ, ℤ, pos, leb_int, ◌≤◌, String, Bool, true, false, Option, none, some, List, [], ◌∷◌,
  ◌++◌, ◌&&◌, not, str_eq, ltb, if◌then◌else◌, ◌≡◌, ◌⊎◌, inl, inr, refl, sym, ◌∙◌, arith, length,
  length-append, any, eq_iff, if_true, if_false, Bool-cases,
}
use overseas.LineProbe.Aggregate.{ProbeResult}
use overseas.Trace.Event.{is_member}
use overseas.LocalApi.Projection.{valid_status}
use overseas.LocalApi.Protocol.{
  Codec, Request, Response, Outcome, ok, err, ProtocolError, invalid_response, invalid_request,
  ended, max_frame_bytes, valid_id, valid_status, valid_result, check_results, delete,
  valid_probe_results, check_response, decode_response, frame_of, encode_response, check_request,
  check_action, decode_request, is_int, unsupported_action, target_ids, version,
}

-- encoding/json reads back what it wrote of a response, up to the newline that ends the frame.
abbrev pub ReadsBack : Codec → Response → Type 0
ReadsBack codec r =
    (bytes : List ℕ)
    → codec.marshal r ≡ some bytes
    → (rest : List ℕ) × (codec.decode_response (bytes ++ (10 ∷ [])) ≡ some (r, rest))
      × (codec.next_value rest ≡ ended)

str_refl : (s : String) → str_eq s s ≡ true
str_refl s = (eq_iff s s).1 refl

module _ (codec : Codec) (r : Response) (back : ReadsBack codec r) (v : r.version ≡ pos 1)
    (id : valid_id codec r.id ≡ true) (status : valid_status r.status ≡ true) where
  frame-decodes :
      (bytes : List ℕ) {frame : List ℕ}
      → codec.marshal r ≡ some bytes
      → valid_probe_results r ≡ true
      → frame_of codec (some bytes) ≡ ok frame
      → decode_response codec frame r.id ≡ ok r
  unfolding frame_of decode_response check_response
  frame-decodes bytes m probes e =
      let (rest, d, n) = back bytes m in
      ground (arith, length-append bytes (10 ∷ []), str_refl r.id, d, n)

  encoded-decodes :
      (m : Option (List ℕ)) {frame : List ℕ}
      → codec.marshal r ≡ m
      → valid_probe_results r ≡ true
      → frame_of codec m ≡ ok frame
      → decode_response codec frame r.id ≡ ok r
  encoded-decodes (some bytes) m probes e = frame-decodes bytes m probes e
  encoded-decodes none m probes e = absurd (refused e)
    where
      refused : {frame : List ℕ} → frame_of codec none ≡ ok frame → ⊥
      refused e = unfold frame_of in cc e

-- Where encoding/json reads back what it writes of a response, the response has version 1, a valid ID
-- and a valid status: if `EncodeResponse` gives a frame, then `DecodeResponse` of the frame, for the
-- response's ID, gives the response.
pub decode-encode :
    (codec : Codec) (r : Response) {frame : List ℕ}
    → ReadsBack codec r
    → r.version ≡ pos 1
    → valid_id codec r.id ≡ true
    → valid_status r.status ≡ true
    → encode_response codec r ≡ ok frame
    → decode_response codec frame r.id ≡ ok r
unfolding encode_response
decode-encode codec r back v id status e = elim (Bool-cases (valid_probe_results r)) [
  | inl probes ↦
      encoded-decodes codec r back v id status (codec.marshal r) refl probes
        (ground (arith, e, probes))
  | inr refused ↦ ground (arith, e, refused)
]

-- A response with a result whose status code is over 599.
abbrev pub over_599 : Response → Bool
over_599 r = any (λ (p : ProbeResult). leb_int (pos 600) p.http_status) r.probe_results

over_599-invalid :
    (ids : List String) (l : List ProbeResult)
    → any (λ (p : ProbeResult). leb_int (pos 600) p.http_status) l ≡ true
    → check_results ids l ≡ false
unfolding check_results valid_result
over_599-invalid ids [] h = cc
over_599-invalid ids (p ∷ ps) h = ground (arith, over_599-invalid (delete p.id ids) ps)

-- If one site answers a check with a status code over 599, `EncodeResponse` refuses the whole
-- response, whatever else it holds.
pub encode_response-over_599 :
    (codec : Codec) (r : Response)
    → over_599 r ≡ true
    → encode_response codec r ≡ err invalid_response
unfolding encode_response valid_probe_results
encode_response-over_599 codec r h = ground (arith, over_599-invalid target_ids r.probe_results h)

-- What `DecodeResponse` accepts is within the frame's bound, answers the request, has version 1, a
-- valid ID, a valid status and valid results.
pub decode_response-accepts :
    (codec : Codec) (frame : List ℕ) (request_id : String) {r : Response}
    → decode_response codec frame request_id ≡ ok r
    → (length frame ≤ max_frame_bytes)
      × (r.id ≡ request_id)
      × (r.version ≡ pos 1)
      × (valid_id codec r.id ≡ true)
      × (valid_status r.status ≡ true)
      × (valid_probe_results r ≡ true)
unfolding decode_response check_response
decode_response-accepts codec frame request_id {r} e = ground (arith, eq_iff r.id request_id)

-- The durations that an action goes with.
abbrev pub HasDuration : Request → Type 0
HasDuration r =
    ((r.action ≡ "diagnostic-enable")
      × ((r.duration_minutes ≡ pos 15)
          ⊎ ((r.duration_minutes ≡ pos 30) ⊎ (r.duration_minutes ≡ pos 60))))
    ⊎ ((is_member r.action ("status" ∷ "connect" ∷ "disconnect" ∷ "probe" ∷ []) ≡ true)
        × (r.duration_minutes ≡ pos 0))

is_int-eq : (n : ℕ) (m : ℤ) → is_int n m ≡ true → m ≡ pos n
is_int-eq n (pos m) h = ground arith
is_int-eq n m h = cc

refused-ne-ok : {A : Type 0} {e : ProtocolError} {a : A} {P : Type 0} → err e ≡ ok a → P
refused-ne-ok h = cc

-- A guard that did not refuse.
unrefused :
    {A : Type 0} (b : Bool) (e : ProtocolError) (o : Outcome A) {a : A}
    → (if not b then err e else o) ≡ ok a
    → (b ≡ true) × (o ≡ ok a)
unrefused true e o h = (refl, h)
unrefused false e o h = refused-ne-ok h

check_duration :
    (q : Request) {r : Request} (a b c : Bool)
    → (is_int 15 q.duration_minutes ≡ a)
    → (is_int 30 q.duration_minutes ≡ b)
    → (is_int 60 q.duration_minutes ≡ c)
    → (if not a && (not b && not c) then err invalid_request else ok q) ≡ ok r
    → (q ≡ r)
      × ((q.duration_minutes ≡ pos 15)
          ⊎ ((q.duration_minutes ≡ pos 30) ⊎ (q.duration_minutes ≡ pos 60)))
check_duration q true b c x y z e = (cc, inl (is_int-eq 15 q.duration_minutes x))
check_duration q false true c x y z e = (cc, inr (inl (is_int-eq 30 q.duration_minutes y)))
check_duration q false false true x y z e = (cc, inr (inr (is_int-eq 60 q.duration_minutes z)))
check_duration q false false false x y z e = refused-ne-ok e

check_action-accepts :
    (codec : Codec) (q : Request) {r : Request}
    → check_action codec q ≡ ok r
    → (q ≡ r) × HasDuration q
unfolding check_action
check_action-accepts codec q {r} e =
    by_case (is_member q.action ("status" ∷ "connect" ∷ "disconnect" ∷ "probe" ∷ []))
      (str_eq q.action "diagnostic-enable") refl refl e
  where
    by_case :
        (plain enable : Bool)
        → is_member q.action ("status" ∷ "connect" ∷ "disconnect" ∷ "probe" ∷ []) ≡ plain
        → str_eq q.action "diagnostic-enable" ≡ enable
        → (if plain
            then if not (is_int 0 q.duration_minutes) then err invalid_request else ok q
            else if enable
            then if not (is_int 15 q.duration_minutes)
                && (not (is_int 30 q.duration_minutes) && not (is_int 60 q.duration_minutes))
              then err invalid_request
              else ok q
            else err unsupported_action)
          ≡ ok r
        → (q ≡ r) × HasDuration q
    by_case true enable p s e =
        let (z, o) = unrefused (is_int 0 q.duration_minutes) _ _ e in
        (cc, inr (p, is_int-eq 0 q.duration_minutes z))
    by_case false true p s e =
        let (o, h) = check_duration q _ _ _ refl refl refl e in
        (o, inl ((eq_iff q.action "diagnostic-enable").0 s, h))
    by_case false false p s e = refused-ne-ok e

check_request-accepts :
    (codec : Codec) (o : Option Request) {r : Request}
    → check_request codec o ≡ ok r
    → (r.version ≡ pos 1) × (valid_id codec r.id ≡ true) × HasDuration r
unfolding check_request
check_request-accepts codec none e = refused-ne-ok e
check_request-accepts codec (some q) {r} e =
    let (v, e₁) = unrefused (is_int version q.version) _ _ e in
    let (i, e₂) = unrefused (valid_id codec q.id) _ _ e₁ in
    let (same, h) = check_action-accepts codec q e₂ in
    subst (λ (x : Request). (x.version ≡ pos 1) × (valid_id codec x.id ≡ true) × HasDuration x) same
      (is_int-eq version q.version v, i, h)

-- What `DecodeRequest` accepts is within the frame's bound, has version 1 and a valid ID, and is
-- either diagnostic-enable for 15, 30 or 60 minutes, or a known other action without a duration.
pub decode_request-accepts :
    (codec : Codec) (frame : List ℕ) {r : Request}
    → decode_request codec frame ≡ ok r
    → (length frame ≤ max_frame_bytes)
      × (r.version ≡ pos 1)
      × (valid_id codec r.id ≡ true)
      × HasDuration r
unfolding decode_request
decode_request-accepts codec frame e = elim (Bool-cases (ltb max_frame_bytes (length frame))) [
  | inl long ↦ refused-ne-ok (sym (if_true _ _ long) ∙ e)
  | inr short ↦
      let (v, i, h) = check_request-accepts codec _ (sym (if_false _ _ short) ∙ e) in
      (ltb→ge max_frame_bytes (length frame) short, v, i, h)
]
