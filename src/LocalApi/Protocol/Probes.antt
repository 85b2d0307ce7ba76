-- ===== src/LocalApi/Protocol/Probes.antt =====
-- internal/lineprobe/probe.go against internal/localapi/protocol.go: what a check reports passes the
-- protocol's test of a result.
use overseas.Base.{
  ℕ, ℤ, pos, is_negative, leb_int, String, Bool, true, false, ◌&&◌, ◌||◌, not, leb, ◌==◌,
  if◌then◌else◌, ◌≡◌, ◌<◌, refl, if_both, arith,
}
use overseas.Trace.Event.{is_member}
use overseas.LineProbe.Aggregate.{ProbeResult}
use overseas.LineProbe.Probe.{
  Target, HttpError, HttpAnswer, broke, answered, Method, head, get, Http, probe_error, latency,
  judge_answer, Attempt, done, again, attempt, empty_result, result_of, after_head, probe, is_head,
  is_method_not_allowed, is_reachable_status,
}
use overseas.LocalApi.Protocol.{valid_result, valid_failures, valid_errors}

-- A status code that the protocol passes on.
abbrev pub is_status : ℤ → Bool
is_status s = not (is_negative s) && leb_int s (pos 599)

abbrev pub HasStatus : HttpAnswer → Type 0
HasStatus (broke e) = Unit
HasStatus (answered s) = is_status s ≡ true

IsKnown : String → Type 0
IsKnown error = is_member error valid_errors ≡ true

-- A result whose clock may not have been read yet.
record IsReport (id : String) (r : ProbeResult) : Type 0 where
  named : r.id ≡ id
  timely : (not (is_negative r.latency_ms) && leb_int r.latency_ms (pos 5000)) ≡ true
  status : is_status r.http_status ≡ true
  failures : valid_failures r.consecutive_failures ≡ true
  error : IsKnown r.error_code

abbrev IsAttempt : String → Attempt → Type 0
IsAttempt id (done r) = IsReport id r × ((r.checked_at == 0) ≡ false)
IsAttempt id (again r) = IsReport id r × ((r.checked_at == 0) ≡ false)

probe_error-IsKnown : (e : HttpError) → IsKnown (probe_error e)
unfolding probe_error IsKnown
probe_error-IsKnown e =
    if_both IsKnown e.is_deadline (λ _. refl)
      λ _.
        if_both IsKnown e.is_canceled (λ _. refl)
          λ _.
            if_both IsKnown e.is_certificate (λ _. refl)
              λ _. if_both IsKnown e.is_timeout (λ _. refl) (λ _. refl)

latency-le : (started ended : ℕ) → leb (latency started ended) 5000 ≡ true
unfolding latency
latency-le started ended = ground arith

nonzero_test : (n : ℕ) → 0 < n → (n == 0) ≡ false
nonzero_test n h = ground arith

module _ (id : String) where
  -- The result of a request that the client could not finish, and of one that was answered.
  broken-IsReport :
      (e : HttpError) (r : ProbeResult)
      → IsReport id r
      → IsReport id (record r { is_reachable = false; error_code = probe_error e })
  unfolding IsKnown
  broken-IsReport e r p = record {
    named = p.named;
    timely = p.timely;
    status = p.status;
    failures = p.failures;
    error = probe_error-IsKnown e;
  }

  answered-IsReport :
      (s : ℤ) (reachable : Bool) (r : ProbeResult)
      → is_status s ≡ true
      → IsReport id r
      → IsReport id (record r {
        is_reachable = reachable;
        http_status = s;
        error_code = if reachable then r.error_code else "http_server_error";
      })
  unfolding IsKnown
  answered-IsReport s reachable r h p = record {
    named = p.named;
    timely = p.timely;
    status = h;
    failures = p.failures;
    error = if_both IsKnown reachable (λ _. p.error) (λ _. refl);
  }

  judge_answer-IsAttempt :
      (m : Method) (a : HttpAnswer) (r : ProbeResult)
      → HasStatus a
      → IsReport id r
      → (r.checked_at == 0) ≡ false
      → IsAttempt id (judge_answer m a r)
  unfolding judge_answer
  judge_answer-IsAttempt m (broke e) r h p c =
      if_both (IsAttempt id) (is_head m && e.is_eof) (λ _. (p, c)) (λ _. (broken-IsReport e r p, c))
  judge_answer-IsAttempt m (answered s) r h p c =
      let q = answered-IsReport s (is_reachable_status s) r h p in
      if_both (IsAttempt id) (not (is_method_not_allowed s) || not (is_head m)) (λ _. (q, c))
        (λ _. (q, c))

IsTried : {W : Type 0} → String → Attempt × W → Type 0
IsTried id (a, w) = IsAttempt id a

module _ {W : Type 0} (h : Http W) (ticks : (w : W) → 0 < (h.now w).0)
    (statuses : (m : Method) (url : String) (w : W) → HasStatus (h.send m url w).0) where
  attempt-IsTried :
      (m : Method) (url id : String) (r : ProbeResult) (w : W)
      → IsReport id r
      → IsTried id (attempt h m url r w)
  unfolding attempt IsTried IsKnown
  attempt-IsTried m url id r w p =
      let c = nonzero_test (h.now w).0 (ticks w) in
      if_both (IsTried id) (not (h.is_request m url))
        (λ _. (
          record {
            named = p.named;
            timely = p.timely;
            status = p.status;
            failures = p.failures;
            error = refl;
          },
          c,
        ))
        (λ _.
          judge_answer-IsAttempt id m _ _ (statuses m url (h.now w).1)
            (record {
              named = p.named;
              timely = latency-le (h.now w).0 (h.now (h.send m url (h.now w).1).1).0;
              status = p.status;
              failures = p.failures;
              error = p.error;
            })
            c)

  result_of-IsReport :
      (id : String) (a : Attempt × W)
      → IsTried id a
      → IsReport id (result_of h a).0 × (((result_of h a).0.checked_at == 0) ≡ false)
  unfolding IsTried
  result_of-IsReport id (done r, w) p = p
  result_of-IsReport id (again r, w) p = p

  after_head-IsReport :
      (url id : String) (a : Attempt × W)
      → IsTried id a
      → IsReport id (after_head h url a).0 × (((after_head h url a).0.checked_at == 0) ≡ false)
  unfolding after_head IsTried
  after_head-IsReport url id (done r, w) p = p
  after_head-IsReport url id (again r, w) p =
      result_of-IsReport id _ (attempt-IsTried get url id r w p.0)

-- If the clock never reads Go's zero time and every status code that a server answers with lies in
-- 0..599, then what `Probe` reports of a target carries its ID and passes the protocol's test of a
-- result: the latency within the budget, the status and the error code known.
pub probe-valid :
    {W : Type 0} (h : Http W)
    → ((w : W) → 0 < (h.now w).0)
    → ((m : Method) (url : String) (w : W) → HasStatus (h.send m url w).0)
    → (target : Target) (w : W)
    → ((probe h target w).0.id ≡ target.id) × (valid_result (probe h target w).0 ≡ true)
unfolding probe valid_result IsKnown
probe-valid h ticks statuses target w =
    let (p, c) = after_head-IsReport h ticks statuses target.url target.id _ (
      attempt-IsTried h ticks statuses head target.url target.id (empty_result h target.id) w
        (record { named = refl; timely = refl; status = refl; failures = refl; error = refl })) in
    (p.named, ground (arith, p.timely, p.status, p.failures, p.error, c))
