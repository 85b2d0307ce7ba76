-- ===== src/DiagnosticMode/Writes.antt =====
-- internal/diagnosticmode/gate.go: recording and writing leave nothing but a bounded line of output,
-- and nothing at all, but in closed streams, while the gate is off.
use overseas.Base.{
  ℕ, Bool, true, false, Option, none, some, List, [], ◌∷◌, not, ◌&&◌, ◌==◌, is_some, is_empty, ◌≡◌,
  refl, sym, ◌∙◌, ap, arith, Bool-cases, inl, inr,
}
use mathlib.Core.Path.{subst}
use overseas.Trace.Event.{Event}
use overseas.Trace.Recorder.{newline}
use overseas.DiagnosticMode.Gate.{
  RecorderOps, OutputState, OutputName, own_output, open_stream, closed_stream, find_stream, Gate,
  empty_output, output_of, put_output, is_enabled, record_open, record_checked, end_line,
  write_bytes, write_checked, output_event,
}
use overseas.DiagnosticMode.Privacy.{
  IsBounded, find_stream-IsBounded, put_stream-AllBounded, add_byte-IsBounded, IsKept, empty-IsKept,
  IsKept-on, find_stream-IsKept, put_stream-AllKept, add_byte-IsKept,
}
use overseas.DiagnosticMode.Steps.{IsPrivate, IsPrivate-from, IsPrivate-Holds, if-IsPrivate}

IsKept-along : {on on' : Bool} {s : OutputState} → on ≡ on' → IsKept on s → IsKept on' s
IsKept-along {s = s} e k = subst (λ b. IsKept b s) e k

drop-IsKept :
    {on : Bool} {s : OutputState} (b : Bool)
    → on ≡ false
    → IsKept on s
    → IsKept on (record s { dropping = b })
drop-IsKept b e k = empty-IsKept _ _ (k.nothing_off e)

module _ {W R : Type 0} (d : RecorderOps W R) where
  -- Recording keeps the gate private, and on if it is on.
  record_open-IsPrivate :
      (e : Event) (r : Option R) (g : Gate W R)
      → r ≡ g.recorder
      → IsPrivate g
      → IsPrivate (record_open d e r g)
        × (is_some (record_open d e r g).recorder ≡ is_some g.recorder)
  unfolding record_open
  record_open-IsPrivate e none g same p = (p, refl)
  record_open-IsPrivate e (some r) g same p =
      let on = ap is_some same in
      let h = IsPrivate-Holds d true g p (sym on) in
      (IsPrivate-from d true _ refl h (λ c. on ∙ p.shut c), on)

  pub record_checked-IsPrivate :
      (e : Event) (g : Gate W R) → IsPrivate g → IsPrivate (record_checked d e g)
  unfolding record_checked
  record_checked-IsPrivate e g p =
      if-IsPrivate d _ (λ h. (record_open-IsPrivate e g.recorder g refl p).0) (λ h. p)

  -- An output state beside a gate that is on.
  abbrev IsWriting : OutputState × Gate W R → Type 0
  IsWriting (s, g) = IsKept true s × IsPrivate g × (is_some g.recorder ≡ true)

  end_line-IsWriting :
      (s : OutputState) (g : Gate W R) → IsWriting (s, g) → IsWriting (empty_output, end_line d s g)
  unfolding end_line
  end_line-IsWriting s g (k, p, on) =
      let q = record_open-IsPrivate (output_event d s.pending) g.recorder g refl p in
      elim (Bool-cases (not s.dropping && not (is_empty s.pending))) [
        | inl e ↦ rw e (empty-IsKept true _ refl, q.0, q.1 ∙ on)
        | inr e ↦ rw e (empty-IsKept true _ refl, p, on)
      ]

  write_bytes-IsWriting :
      (bytes : List ℕ) (s : OutputState) (g : Gate W R)
      → IsWriting (s, g)
      → IsWriting (write_bytes d bytes (s, g))
  unfolding write_bytes
  write_bytes-IsWriting [] s g h = h
  write_bytes-IsWriting (b ∷ bs) s g h = elim (Bool-cases (b == newline)) [
    | inl e ↦ rw e (write_bytes-IsWriting bs _ _ (end_line-IsWriting s g h))
    | inr e ↦ rw e (write_bytes-IsWriting bs _ _ (add_byte-IsKept b s h.0, h.1, h.2))
  ]

  end_line-IsPrivate :
      (s : OutputState) (g : Gate W R)
      → IsPrivate g × (is_some g.recorder ≡ true)
      → IsPrivate (end_line d s g) × (is_some (end_line d s g).recorder ≡ true)
  unfolding end_line
  end_line-IsPrivate s g (p, on) =
      let q = record_open-IsPrivate (output_event d s.pending) g.recorder g refl p in
      elim (Bool-cases (not s.dropping && not (is_empty s.pending))) [
        | inl e ↦ rw e (q.0, q.1 ∙ on)
        | inr e ↦ rw e (p, on)
      ]

  write_bytes-IsPrivate :
      (bytes : List ℕ) (s : OutputState) (g : Gate W R)
      → IsPrivate g
      → is_some g.recorder ≡ true
      → IsPrivate (write_bytes d bytes (s, g)).1
  unfolding write_bytes
  write_bytes-IsPrivate [] s g p on = p
  write_bytes-IsPrivate (b ∷ bs) s g p on = elim (Bool-cases (b == newline)) [
    | inl e ↦
        let (q, still) = end_line-IsPrivate s g (p, on) in
        rw e (write_bytes-IsPrivate bs _ _ q still)
    | inr e ↦ rw e (write_bytes-IsPrivate bs _ _ p on)
  ]

  write_bytes-IsBounded :
      (bytes : List ℕ) (s : OutputState) (g : Gate W R)
      → IsBounded s
      → IsBounded (write_bytes d bytes (s, g)).0
  unfolding write_bytes
  write_bytes-IsBounded [] s g h = h
  write_bytes-IsBounded (b ∷ bs) s g h = elim (Bool-cases (b == newline)) [
    | inl e ↦ rw e (write_bytes-IsBounded bs _ _ (empty-IsKept true empty_output refl).bounded)
    | inr e ↦ rw e (write_bytes-IsBounded bs _ _ (add_byte-IsBounded b s h))
  ]

  -- What is known of a writer's state, of the gate's or closed.
  abbrev Fits : OutputName → Bool → OutputState → Type 0
  Fits own_output on s = IsKept on s
  Fits (open_stream i) on s = IsKept on s
  Fits (closed_stream i) on s = IsBounded s

  put_output-IsPrivate :
      (target : OutputName) (s : OutputState) (g : Gate W R)
      → Fits target (is_some g.recorder) s
      → IsPrivate g
      → IsPrivate (put_output target s g)
  unfolding put_output
  put_output-IsPrivate own_output s g k p = record {
    output_kept = k;
    streams_kept = p.streams_kept;
    closed_kept = p.closed_kept;
    shut = p.shut;
  }
  put_output-IsPrivate (open_stream i) s g k p = record {
    output_kept = p.output_kept;
    streams_kept = put_stream-AllKept _ i s g.streams k p.streams_kept;
    closed_kept = p.closed_kept;
    shut = p.shut;
  }
  put_output-IsPrivate (closed_stream i) s g k p = record {
    output_kept = p.output_kept;
    streams_kept = p.streams_kept;
    closed_kept = put_stream-AllBounded i s g.closed_streams k p.closed_kept;
    shut = p.shut;
  }

  output_of-Fits :
      (target : OutputName) (g : Gate W R)
      → IsPrivate g
      → Fits target (is_some g.recorder) (output_of target g)
  output_of-Fits own_output g p = p.output_kept
  output_of-Fits (open_stream i) g p = find_stream-IsKept _ i g.streams p.streams_kept
  output_of-Fits (closed_stream i) g p = find_stream-IsBounded i g.closed_streams p.closed_kept

  Fits-IsBounded :
      (target : OutputName) (on : Bool) (s : OutputState) → Fits target on s → IsBounded s
  Fits-IsBounded own_output on s k = k.bounded
  Fits-IsBounded (open_stream i) on s k = k.bounded
  Fits-IsBounded (closed_stream i) on s k = k

  -- A writer's state after the bytes, where the gate is on.
  written-Fits :
      (target : OutputName) (bytes : List ℕ) (g : Gate W R)
      → IsPrivate g
      → is_some g.recorder ≡ true
      → (r : OutputState × Gate W R) → write_bytes d bytes (output_of target g, g) ≡ r
      → Fits target (is_some r.1.recorder) r.0 × IsPrivate r.1
  written-Fits target bytes g p on r e =
      subst (λ q. Fits target (is_some q.1.recorder) q.0 × IsPrivate q.1) e (by_name target)
    where
      writing :
          (s : OutputState)
          → IsKept (is_some g.recorder) s
          → IsKept (is_some (write_bytes d bytes (s, g)).1.recorder) (write_bytes d bytes (s, g)).0
            × IsPrivate (write_bytes d bytes (s, g)).1
      writing s k =
          let w = write_bytes-IsWriting bytes s g (IsKept-on _ _ k, p, on) in
          (IsKept-along (sym w.2) w.0, w.1)

      by_name :
          (n : OutputName)
          → Fits n
              (is_some (write_bytes d bytes (output_of n g, g)).1.recorder)
              (write_bytes d bytes (output_of n g, g)).0
            × IsPrivate (write_bytes d bytes (output_of n g, g)).1
      by_name own_output = writing g.output p.output_kept
      by_name (open_stream i) = writing _ (output_of-Fits (open_stream i) g p)
      by_name (closed_stream i) =
          let s = find_stream i g.closed_streams in
          (
            write_bytes-IsBounded bytes s g (output_of-Fits (closed_stream i) g p),
            write_bytes-IsPrivate bytes s g p on,
          )

  drop-Fits :
      (target : OutputName) {on : Bool} (s : OutputState) (b : Bool)
      → on ≡ false
      → Fits target on s
      → Fits target on (record s { dropping = b })
  drop-Fits own_output s b e k = drop-IsKept b e k
  drop-Fits (open_stream i) s b e k = drop-IsKept b e k
  drop-Fits (closed_stream i) s b e k = k

  -- A gate that is not enabled has no recorder.
  disabled_off : (g : Gate W R) → IsPrivate g → is_enabled g ≡ false → is_some g.recorder ≡ false
  disabled_off g p e = elim (Bool-cases g.closed) [ inl c ↦ p.shut c | inr c ↦ ground arith ]

  pub write_checked-IsPrivate :
      (target : OutputName) (bytes : List ℕ) (g : Gate W R)
      → IsPrivate g
      → IsPrivate (write_checked d target bytes g)
  unfolding write_checked
  write_checked-IsPrivate target bytes g p =
      if-IsPrivate d _
        (λ e.
          let on : is_some g.recorder ≡ true = ground arith in
          let (k, q) = written-Fits target bytes g p on _ refl in
          put_output-IsPrivate target _ _ k q)
        (λ e.
          put_output-IsPrivate target _ g
            (drop-Fits target _ _ (disabled_off g p e) (output_of-Fits target g p)) p)
