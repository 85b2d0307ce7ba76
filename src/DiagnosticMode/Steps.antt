-- ===== src/DiagnosticMode/Steps.antt =====
-- internal/diagnosticmode/gate.go: every operation of the gate leaves nothing but a bounded line of
-- output, and nothing at all, but in closed streams, while the gate is off.
use overseas.Base.{
  ℕ, String, Bool, true, false, Option, none, some, not, ◌&&◌, ◌==◌, leb, if◌then◌else◌, is_some,
  ◌≡◌, refl, sym, ◌∙◌, ap, Bool-cases, if_true, if_false, inl, inr,
}
use mathlib.Core.Path.{subst}
use overseas.DiagnosticMode.Gate.{
  RecorderOps, Gate, close_recorder, off, check_deadline, arm, arm_opened, enable_checked, enable,
  expire, check_now, minutes,
}
use overseas.DiagnosticMode.Privacy.{
  AllBounded, IsKept, AllKept, clear_output-IsKept, clear_streams-AllKept, IsKept-on, AllKept-on,
}

module _ {W R : Type 0} where
  -- The gate's output and its streams hold bytes only while it has a recorder, and it has none once it
  -- is closed; a closed stream holds a bounded line.
  pub record IsPrivate (g : Gate W R) : Type 0 where
    pub output_kept : IsKept (is_some g.recorder) g.output
    pub streams_kept : AllKept (is_some g.recorder) g.streams
    pub closed_kept : AllBounded g.closed_streams
    pub shut : g.closed ≡ true → is_some g.recorder ≡ false

module _ {W R : Type 0} (d : RecorderOps W R) where
  -- A gate whose outputs are kept as the gate is on or off.
  abbrev pub Holds : Bool → Gate W R → Type 0
  Holds on g = IsKept on g.output × (AllKept on g.streams × AllBounded g.closed_streams)

  pub IsPrivate-from :
      (on : Bool) (g : Gate W R)
      → is_some g.recorder ≡ on
      → Holds on g
      → (g.closed ≡ true → on ≡ false)
      → IsPrivate g
  IsPrivate-from on g e (p, (q, l)) c = record {
    output_kept = rw e p;
    streams_kept = rw e q;
    closed_kept = l;
    shut = λ h. e ∙ c h;
  }

  close_recorder-IsPrivate :
      (r : Option R) (g : Gate W R)
      → r ≡ g.recorder
      → Holds false g
      → IsPrivate (close_recorder d r g).1
  unfolding close_recorder
  close_recorder-IsPrivate none g e h = IsPrivate-from false g (ap is_some (sym e)) h (λ c. refl)
  close_recorder-IsPrivate (some r) g e h = IsPrivate-from false _ refl h (λ c. refl)

  pub off-IsPrivate : (g : Gate W R) → AllBounded g.closed_streams → IsPrivate (off d g).1
  unfolding off
  off-IsPrivate g l =
      close_recorder-IsPrivate g.recorder _ refl
        (clear_output-IsKept false g.output, (clear_streams-AllKept false g.streams, l))

  close_recorder-closed : (r : Option R) (g : Gate W R) → (close_recorder d r g).1.closed ≡ g.closed
  unfolding close_recorder
  close_recorder-closed none g = refl
  close_recorder-closed (some r) g = refl

  pub if-IsPrivate :
      {g h : Gate W R} (b : Bool)
      → (b ≡ true → IsPrivate g)
      → (b ≡ false → IsPrivate h)
      → IsPrivate (if b then g else h)
  if-IsPrivate true p q = p refl
  if-IsPrivate false p q = q refl

  pub check_deadline-IsPrivate :
      (now : ℕ) (g : Gate W R) → IsPrivate g → IsPrivate (check_deadline d now g)
  unfolding check_deadline
  check_deadline-IsPrivate now g p = if-IsPrivate _ (λ e. off-IsPrivate g p.closed_kept) (λ e. p)

  off-closed : (g : Gate W R) → (off d g).1.closed ≡ g.closed
  unfolding off
  off-closed g = close_recorder-closed g.recorder _

  check_deadline-closed : (now : ℕ) (g : Gate W R) → (check_deadline d now g).closed ≡ g.closed
  unfolding check_deadline
  check_deadline-closed now g = elim (Bool-cases (is_some g.recorder && leb g.deadline now)) [
    | inl e ↦ ap (λ (h : Gate W R). h.closed) (if_true (off d g).1 g e) ∙ off-closed g
    | inr e ↦ ap (λ (h : Gate W R). h.closed) (if_false (off d g).1 g e)
  ]

  pub check_now-IsPrivate : (g : Gate W R) → IsPrivate g → IsPrivate (check_now d g)
  unfolding check_now
  check_now-IsPrivate g p = check_deadline-IsPrivate _ _ (record {
    output_kept = p.output_kept;
    streams_kept = p.streams_kept;
    closed_kept = p.closed_kept;
    shut = p.shut;
  })

  arm-IsPrivate : (now t : ℕ) (g : Gate W R) → IsPrivate g → IsPrivate (arm d now t g).1
  unfolding arm
  arm-IsPrivate now t g p = record {
    output_kept = p.output_kept;
    streams_kept = p.streams_kept;
    closed_kept = p.closed_kept;
    shut = p.shut;
  }

  arm_opened-IsPrivate :
      (now t : ℕ) (o : (Option String × Option R) × W) (g : Gate W R)
      → is_some g.recorder ≡ false
      → g.closed ≡ false
      → Holds false g
      → IsPrivate (arm_opened d now t o g).1
  unfolding arm_opened
  arm_opened-IsPrivate now t ((some e, r), w) g off open_gate h =
      IsPrivate-from false _ off h (λ c. refl)
  arm_opened-IsPrivate now t ((none, none), w) g off open_gate h =
      arm-IsPrivate now t _ (IsPrivate-from false _ refl h (λ c. refl))
  arm_opened-IsPrivate now t ((none, some r), w) g off open_gate h = arm-IsPrivate now t _ (
      IsPrivate-from true _ refl (IsKept-on false _ h.0, (AllKept-on false _ h.1.0, h.1.1))
        (λ c. cc))

  pub IsPrivate-Holds :
      (on : Bool) (g : Gate W R) → IsPrivate g → is_some g.recorder ≡ on → Holds on g
  IsPrivate-Holds on g p e = (
    subst (λ b. IsKept b g.output) e p.output_kept,
    (subst (λ b. AllKept b g.streams) e p.streams_kept, p.closed_kept),
  )

  pick-IsPrivate :
      (b : Bool) (x y : Option String × Gate W R)
      → (b ≡ true → IsPrivate x.1)
      → (b ≡ false → IsPrivate y.1)
      → IsPrivate (if b then x else y).1
  pick-IsPrivate true x y p q = p refl
  pick-IsPrivate false x y p q = q refl

  enable_checked-IsPrivate :
      (now t : ℕ) (g : Gate W R)
      → g.closed ≡ false
      → IsPrivate g
      → IsPrivate (enable_checked d now t g).1
  unfolding enable_checked
  enable_checked-IsPrivate now t g c p =
      pick-IsPrivate (is_some g.recorder) (arm d now t g)
        (arm_opened d now t (d.open_recorder g.world) g) (λ e. arm-IsPrivate now t g p)
        (λ e. arm_opened-IsPrivate now t _ g e c (IsPrivate-Holds false g p e))

  enable_open-IsPrivate :
      (now t : ℕ) (g : Gate W R) (message : Option String)
      → IsPrivate g
      → IsPrivate
          (if g.closed then (message, g) else enable_checked d now t (check_deadline d now g)).1
  enable_open-IsPrivate now t g message p =
      pick-IsPrivate g.closed (message, g) (enable_checked d now t (check_deadline d now g))
        (λ c. p)
        (λ c.
          enable_checked-IsPrivate now t _ (check_deadline-closed now g ∙ c)
            (check_deadline-IsPrivate now g p))

  pub enable-IsPrivate : (now t : ℕ) (g : Gate W R) → IsPrivate g → IsPrivate (enable d now t g).1
  unfolding enable
  enable-IsPrivate now t g p =
      elim (Bool-cases
        (not (t == minutes 15) && (not (t == minutes 30) && not (t == minutes 60)))) [
          | inl e ↦ rw e p
          | inr e ↦ rw e (enable_open-IsPrivate now t g (some "diagnostic mode is closed") p)
        ]

  pub expire-IsPrivate : (epoch : ℕ) (g : Gate W R) → IsPrivate g → IsPrivate (expire d epoch g)
  unfolding expire
  expire-IsPrivate epoch g p = if-IsPrivate _ (λ e. off-IsPrivate g p.closed_kept) (λ e. p)
