-- ===== src/DiagnosticMode/Gate.antt =====
-- internal/diagnosticmode/gate.go: the gate in front of the recorder. Each operation runs under the
-- gate's mutex, so it is one step. Bytes are numbers, times and durations nanoseconds.
use overseas.Base.{
  ℕ, ◌+◌, ◌*◌, ◌%◌, ◌^◌, String, Bool, true, false, Option, none, some, List, [], ◌∷◌, ◌++◌, not,
  ◌||◌, ◌&&◌, ◌==◌, leb, if◌then◌else◌, is_some, length, is_empty,
}
use overseas.Trace.Event.{Event, Batch, max_detail_bytes}
use overseas.Trace.Recorder.{empty_batch, newline}

-- What the gate uses of `traceevent.Recorder`, over a world `W`, and of the clock.
pub record RecorderOps (W R : Type 0) : Type 0 where
  pub now : W → ℕ × W
  pub open_recorder : W → (Option String × Option R) × W  -- `NewRecorder`: an error, or a recorder
  pub record_event : Event → R → W → R × W
  pub batch : ℕ → ℕ → R → Batch
  pub close : R → W → Option String × W
  pub text_of : List ℕ → String  -- `string(bytes)`

pub record OutputState : Type 0 where
  pub pending : List ℕ
  pub dropping : Bool

-- `expiry` says whether there is a timer; a stream is named by a number. `streams` are those of the
-- gate, and `closed_streams` those that are closed, whose writers still hold their states.
pub record Gate (W R : Type 0) : Type 0 where
  pub recorder : Option R
  pub deadline : ℕ
  pub expiry : Bool
  pub epoch : ℕ
  pub closed : Bool
  pub output : OutputState
  pub streams : List (ℕ × OutputState)
  pub closed_streams : List (ℕ × OutputState)
  pub next_stream : ℕ
  pub world : W

abbrev pub empty_output : OutputState
empty_output = record { pending = []; dropping = false }

-- `New`
unfoldable pub new_gate : {W R : Type 0} → W → Gate W R
new_gate w = record {
  recorder = none;
  deadline = 0;
  expiry = false;
  epoch = 0;
  closed = false;
  output = empty_output;
  streams = [];
  closed_streams = [];
  next_stream = 0;
  world = w;
}

abbrev pub minutes : ℕ → ℕ
minutes n = n * 60000000000

unfoldable pub clear_output : OutputState → OutputState
clear_output s = record { pending = []; dropping = s.dropping || not (is_empty s.pending) }

unfoldable pub clear_streams : List (ℕ × OutputState) → List (ℕ × OutputState)
clear_streams [] = []
clear_streams ((i, s) ∷ l) = (i, clear_output s) ∷ clear_streams l

-- A byte of a line, while enabled.
unfoldable pub add_byte : ℕ → OutputState → OutputState
add_byte b s =
    if s.dropping
    then s
    else if leb max_detail_bytes (length s.pending)
    then record { pending = []; dropping = true }
    else record s { pending = s.pending ++ (b ∷ []) }

-- The state of a stream, or of the gate's own output.
unfoldable pub find_stream : ℕ → List (ℕ × OutputState) → OutputState
find_stream i [] = empty_output
find_stream i ((j, s) ∷ l) = if i == j then s else find_stream i l

unfoldable pub has_stream : ℕ → List (ℕ × OutputState) → Bool
has_stream i [] = false
has_stream i ((j, s) ∷ l) = i == j || has_stream i l

unfoldable pub put_stream : ℕ → OutputState → List (ℕ × OutputState) → List (ℕ × OutputState)
put_stream i t [] = []
put_stream i t ((j, s) ∷ l) = if i == j then (j, t) ∷ l else (j, s) ∷ put_stream i t l

unfoldable pub remove_stream : ℕ → List (ℕ × OutputState) → List (ℕ × OutputState)
remove_stream i [] = []
remove_stream i ((j, s) ∷ l) = if i == j then l else (j, s) ∷ remove_stream i l

-- Where a writer's state is: the gate's own output, a stream of the gate, or one that is closed.
pub data OutputName : Type 0 where
  own_output : OutputName
  open_stream closed_stream : ℕ → OutputName

module _ {W R : Type 0} where
  -- What a write goes to: `none` for the gate's `Write`.
  unfoldable pub name_of : Option ℕ → Gate W R → OutputName
  name_of none g = own_output
  name_of (some i) g = if has_stream i g.streams then open_stream i else closed_stream i

  abbrev pub output_of : OutputName → Gate W R → OutputState
  output_of own_output g = g.output
  output_of (open_stream i) g = find_stream i g.streams
  output_of (closed_stream i) g = find_stream i g.closed_streams

  abbrev pub is_enabled : Gate W R → Bool
  is_enabled g = not g.closed && is_some g.recorder

  unfoldable pub put_output : OutputName → OutputState → Gate W R → Gate W R
  put_output own_output s g = record g { output = s }
  put_output (open_stream i) s g = record g { streams = put_stream i s g.streams }
  put_output (closed_stream i) s g = record g { closed_streams = put_stream i s g.closed_streams }

  -- `NewOutputStream`, and `Close` of the writer that it returns
  unfoldable pub new_output_stream : Gate W R → ℕ × Gate W R
  new_output_stream g = (
    g.next_stream,
    record g {
      streams = g.streams ++ ((g.next_stream, empty_output) ∷ []);
      next_stream = g.next_stream + 1;
    },
  )

  unfoldable pub close_output_stream : ℕ → Gate W R → Gate W R
  close_output_stream i g =
      if has_stream i g.streams
      then record g {
        streams = remove_stream i g.streams;
        closed_streams = (i, clear_output (find_stream i g.streams)) ∷ g.closed_streams;
      }
      else record g {
        closed_streams =
            put_stream i (clear_output (find_stream i g.closed_streams)) g.closed_streams;
      }

module _ {W R : Type 0} (d : RecorderOps W R) where
  unfoldable pub close_recorder : Option R → Gate W R → Option String × Gate W R
  close_recorder none g = (none, g)
  close_recorder (some r) g =
      let c = d.close r g.world in (c.0, record g { recorder = none; world = c.1 })

  -- `offLocked`
  unfoldable pub off : Gate W R → Option String × Gate W R
  off g = close_recorder g.recorder (record g {
    epoch = (g.epoch + 1) % 2 ^ 64;
    expiry = false;
    output = clear_output g.output;
    streams = clear_streams g.streams;
  })

  -- `enabledLocked`: the gate that it leaves; it is enabled if there is a recorder then.
  unfoldable pub check_deadline : ℕ → Gate W R → Gate W R
  check_deadline now g = if is_some g.recorder && leb g.deadline now then (off g).1 else g

  -- `Enabled`
  abbrev pub enabled : ℕ → Gate W R → Bool × Gate W R
  enabled now g = let h = check_deadline now g in (is_enabled h, h)

  unfoldable pub arm : ℕ → ℕ → Gate W R → Option String × Gate W R
  arm now duration g =
      (none, record g { deadline = now + duration; epoch = (g.epoch + 1) % 2 ^ 64; expiry = true })

  unfoldable pub arm_opened :
      ℕ → ℕ → (Option String × Option R) × W → Gate W R → Option String × Gate W R
  arm_opened now duration ((some e, r), w) g = (some e, record g { world = w })
  arm_opened now duration ((none, r), w) g = arm now duration (record g { recorder = r; world = w })

  unfoldable pub enable_checked : ℕ → ℕ → Gate W R → Option String × Gate W R
  enable_checked now duration g =
      if is_some g.recorder
      then arm now duration g
      else arm_opened now duration (d.open_recorder g.world) g

  -- `Enable`
  unfoldable pub enable : ℕ → ℕ → Gate W R → Option String × Gate W R
  enable now duration g =
      if not (duration == minutes 15)
        && (not (duration == minutes 30) && not (duration == minutes 60))
      then (some "diagnostic duration must be 15, 30, or 60 minutes", g)
      else if g.closed
      then (some "diagnostic mode is closed", g)
      else enable_checked now duration (check_deadline now g)

  -- The timer of the epoch `epoch` fires.
  unfoldable pub expire : ℕ → Gate W R → Gate W R
  expire epoch g = if g.epoch == epoch then (off g).1 else g

  -- The gate after `enabledLocked(g.config.Now())`.
  unfoldable pub check_now : Gate W R → Gate W R
  check_now g = let n = d.now g.world in check_deadline n.0 (record g { world = n.1 })

  unfoldable pub record_open : Event → Option R → Gate W R → Gate W R
  record_open e none g = g
  record_open e (some r) g =
      let c = d.record_event e r g.world in record g { recorder = some c.0; world = c.1 }

  unfoldable pub record_checked : Event → Gate W R → Gate W R
  record_checked e g = if is_enabled g then record_open e g.recorder g else g

  -- `Record`
  abbrev pub record_gated : Event → Gate W R → Gate W R
  record_gated e g = record_checked e (check_now g)

  abbrev pub batch_open : ℕ → ℕ → Option R → Batch
  batch_open after limit none = empty_batch after
  batch_open after limit (some r) = d.batch after limit r

  -- `Batch`
  abbrev pub batch_gated : ℕ → ℕ → Gate W R → Batch × Gate W R
  batch_gated after limit g =
      let h = check_now g in
      (if is_enabled h then batch_open after limit h.recorder else empty_batch after, h)

  -- The event of a complete line of output.
  abbrev pub output_event : List ℕ → Event
  output_event line = record {
    schema = 0;
    sequence = 0;
    timestamp = 0;
    is_utc = true;
    generation = 0;
    level = "info";
    component = "core";
    stage = "core_ready";
    event = "state";
    elapsed_ms = none;
    message = "数据面进程输出";
    detail = d.text_of line;
    detail_truncated = false;
    residue = none;
  }

  unfoldable pub end_line : OutputState → Gate W R → Gate W R
  end_line s g =
      if not s.dropping && not (is_empty s.pending)
      then record_open (output_event s.pending) g.recorder g
      else g

  -- The loop of `writeLocked` while enabled.
  unfoldable pub write_bytes : List ℕ → OutputState × Gate W R → OutputState × Gate W R
  write_bytes [] (s, g) = (s, g)
  write_bytes (b ∷ bs) (s, g) =
      if b == newline
      then write_bytes bs (empty_output, end_line s g)
      else write_bytes bs (add_byte b s, g)

  abbrev pub ends_line : List ℕ → Bool → Bool
  ends_line [] last = last
  ends_line (b ∷ bs) last = ends_line bs (not (b == newline))

  unfoldable pub write_checked : OutputName → List ℕ → Gate W R → Gate W R
  write_checked target bytes g =
      let s = output_of target g in
      if is_enabled g
      then (let r = write_bytes bytes (s, g) in put_output target r.0 r.1)
      else put_output target (record s { dropping = ends_line bytes s.dropping }) g

  -- `writeLocked`, for `Write` of the gate and of a stream's writer
  abbrev pub write_gated : Option ℕ → List ℕ → Gate W R → Gate W R
  write_gated target bytes g = write_checked (name_of target g) bytes (check_now g)

  -- `Close`
  unfoldable pub close_gate : Gate W R → Option String × Gate W R
  close_gate g = off (record g { closed = true })
