-- ===== src/Trace/Recorder.antt =====
-- internal/traceevent/recorder.go: the recorder of trace events, a ring in memory and a file per
-- generation. The file system and the clock are functions over a world `W`; bytes are numbers.
pub mod Numbers
pub mod Ring
pub mod Pages
mod Tests
use overseas.Base.{
  ℕ, zero, suc, ℤ, ◌+◌, ◌%◌, ◌^◌, String, Bool, true, false, Option, none, some, List, [], ◌∷◌,
  ◌++◌, not, ◌||◌, ◌&&◌, ◌==◌, ltb, leb, if◌then◌else◌, is_some, str_eq, length, tail,
}
use overseas.Trace.Event.{Event, Batch, schema_version, validate}

-- What creating a file with O_EXCL answers.
pub data Created : Type 0 where
  created exists : Created
  refused : String → Created

pub record Files (W : Type 0) : Type 0 where
  pub now : W → ℕ × W
  pub sanitize : String → String × Bool  -- `SanitizeDetail`, of redact.go
  pub trim_space : String → String
  pub encode : Event → Option (List ℕ)  -- `json.Marshal`
  pub encode_error : String  -- its error's text, where it fails
  pub create : ℕ → ℕ → ℕ → W → Created × W  -- the file named by time, suffix and generation
  pub write : List ℕ → W → Option String × W
  pub sync : W → Option String × W  -- an os.ErrInvalid included
  pub close : W → Option String × W
  pub is_invalid : String → Bool  -- `errors.Is(err, os.ErrInvalid)`
  pub prune : W → Option String × W  -- `pruneLocked`

pub record Recorder (W : Type 0) : Type 0 where
  pub capacity : ℕ
  pub max_file_bytes : ℕ
  pub sequence : ℕ
  pub events : List Event  -- oldest first
  pub has_file : Bool
  pub file_bytes : ℕ
  pub file_generation : ℕ
  pub file_truncated : Bool
  pub disk_degraded : Bool
  pub closed : Bool
  pub world : W

abbrev pub newline : ℕ
newline = 10

-- The literal that `Record` gets for an event of the recorder itself.
abbrev pub logging_event : ℕ → String → String → String → Event
logging_event generation level message detail = record {
  schema = 0;
  sequence = 0;
  timestamp = 0;
  is_utc = true;
  generation = generation;
  level = level;
  component = "logging";
  stage = "logging_degraded";
  event = "failed";
  elapsed_ms = none;
  message = message;
  detail = detail;
  detail_truncated = false;
  residue = none;
}

-- `Batch`: the loop over the remembered events.
unfoldable pub collect : ℕ → ℕ → List Event → Batch → Batch
collect after limit [] batch = batch
collect after limit (e ∷ es) batch =
    if leb e.sequence after
    then collect after limit es batch
    else if length batch.events == limit
    then record batch { has_more = true }
    else collect after limit es
        (record batch { events = batch.events ++ (e ∷ []); next_sequence = e.sequence })

abbrev pub empty_batch : ℕ → Batch
empty_batch after = record {
  events = [];
  next_sequence = after;
  has_more = false;
  oldest_sequence = 0;
}

unfoldable pub batch_of : ℕ → ℕ → List Event → Batch
batch_of after limit [] = empty_batch after
batch_of after limit (e ∷ es) =
    if limit == 0
    then empty_batch after
    else collect after limit (e ∷ es) (record (empty_batch after) { oldest_sequence = e.sequence })

module _ {W : Type 0} where
  abbrev pub batch : ℕ → ℕ → Recorder W → Batch
  batch after limit r = batch_of after limit r.events

  unfoldable pub append_memory : Event → Recorder W → Recorder W
  append_memory e r =
      if length r.events == r.capacity
      then record r { events = tail r.events ++ (e ∷ []) }
      else record r { events = r.events ++ (e ∷ []) }

module _ {W : Type 0} (f : Files W) where
  -- `prepareLocked`
  unfoldable pub prepare : Event → Recorder W → Event × Recorder W
  prepare e r =
      let sequence = (r.sequence + 1) % 2 ^ 64 in
      (
        record e {
          schema = schema_version;
          sequence = sequence;
          timestamp = (f.now r.world).0;
          is_utc = true;
          message = (f.sanitize e.message).0;
          detail = (f.sanitize e.detail).0;
          detail_truncated = (f.sanitize e.detail).1;
        },
        record r { sequence = sequence; world = (f.now r.world).1 },
      )

  -- A prepared event, remembered.
  unfoldable pub prepare_and_append : Event → Recorder W → Event × Recorder W
  prepare_and_append e r = let p = prepare e r in (p.0, append_memory p.0 p.1)

  -- `appendLoggingFailureLocked`
  unfoldable pub append_logging_failure : ℕ → String → String → Recorder W → Recorder W
  append_logging_failure generation message detail r =
      if r.disk_degraded
      then r
      else (prepare_and_append (logging_event generation "error" message detail)
          (record r { disk_degraded = true })).1

  -- An answer of the file system, with the world it leaves.
  unfoldable pub on_files : {A : Type 0} → (W → A × W) → Recorder W → A × Recorder W
  on_files call r = ((call r.world).0, record r { world = (call r.world).1 })

  unfoldable pub conclude_close : Option String → Recorder W → Option String × Recorder W
  conclude_close none r = (none, r)
  conclude_close (some e) r = (if f.is_invalid e then none else some e, r)

  unfoldable pub conclude_sync : Option String → Recorder W → Option String × Recorder W
  conclude_sync none r = let c = on_files f.close r in conclude_close c.0 c.1
  conclude_sync (some e) r =
      let c = on_files f.close r in if f.is_invalid e then conclude_close c.0 c.1 else (some e, c.1)

  -- `closeFileLocked`
  unfoldable pub close_file : Recorder W → Option String × Recorder W
  close_file r =
      if not r.has_file
      then (none, r)
      else let s = on_files f.sync (record r { has_file = false }) in conclude_sync s.0 s.1

  -- The loop over the suffixes: `left` of them are left to try.
  unfoldable pub create_file : ℕ → ℕ → ℕ → ℕ → Created × Recorder W → Option String × Recorder W
  create_file left stamp suffix generation (created, r) =
      on_files f.prune (record r { has_file = true })
  create_file left stamp suffix generation (refused e, r) = (some e, r)
  create_file zero stamp suffix generation (exists, r) = (some "file exists", r)
  create_file (suc left) stamp suffix generation (exists, r) =
      create_file left stamp (suffix + 1) generation
        (on_files (f.create stamp (suffix + 1) generation) r)

  unfoldable pub create_first : ℕ → ℕ × Recorder W → Option String × Recorder W
  create_first generation (stamp, r) =
      create_file 99 stamp 0 generation (on_files (f.create stamp 0 generation) r)

  unfoldable pub reset_file : ℕ → Option String × Recorder W → Option String × Recorder W
  reset_file generation (some e, r) = (some e, r)
  reset_file generation (none, r) = create_first generation (
      on_files f.now (record r {
        file_generation = generation;
        file_bytes = 0;
        file_truncated = false;
        disk_degraded = false;
      }))

  -- `openGenerationLocked`
  unfoldable pub open_generation : ℕ → Recorder W → Option String × Recorder W
  open_generation generation r = reset_file generation (close_file r)

  -- What follows the write of an event.
  unfoldable pub conclude_sync_event : Event → Option String × Recorder W → Recorder W
  conclude_sync_event e (none, r) = r
  conclude_sync_event e (some err, r) = append_logging_failure e.generation "日志持久化不可用" err r

  unfoldable pub conclude_write : Event → ℕ → Option String × Recorder W → Recorder W
  conclude_write e size (some err, r) = append_logging_failure e.generation "日志持久化不可用" err r
  conclude_write e size (none, r) =
      let counted = record r { file_bytes = r.file_bytes + size } in
      if str_eq e.event "started" then counted else conclude_sync_event e (on_files f.sync counted)

  -- The write of the last event of a file; `Sync` is called for its effect.
  unfoldable pub conclude_terminal : ℕ → Option String × Recorder W → Recorder W
  conclude_terminal size (some err, r) = r
  conclude_terminal size (none, r) =
      (on_files f.sync (record r { file_bytes = r.file_bytes + size })).1

  unfoldable pub write_terminal : Option (List ℕ) → Recorder W → Recorder W
  write_terminal none r = r
  write_terminal (some bytes) r =
      let line = bytes ++ (newline ∷ []) in
      if leb (r.file_bytes + length line) r.max_file_bytes
      then conclude_terminal (length line) (on_files (f.write line) r)
      else r

  -- The file is full: one more event says so.
  unfoldable pub truncate_file : ℕ → Recorder W → Recorder W
  truncate_file generation r =
      let p =
        prepare_and_append (logging_event generation "warning" "日志文件达到大小上限，后续磁盘记录已截断" "")
          (record r { file_truncated = true }) in
      write_terminal (f.encode p.0) p.1

  unfoldable pub write_event : Event → Option (List ℕ) → Recorder W → Recorder W
  write_event e none r = append_logging_failure e.generation "日志序列化失败" f.encode_error r
  write_event e (some bytes) r =
      let line = bytes ++ (newline ∷ []) in
      if ltb r.max_file_bytes (r.file_bytes + length line)
      then truncate_file e.generation r
      else conclude_write e (length line) (on_files (f.write line) r)

  unfoldable pub persist_opened : Event → Option String × Recorder W → Recorder W
  persist_opened e (some err, r) = append_logging_failure e.generation "日志持久化不可用" err r
  persist_opened e (none, r) =
      if r.disk_degraded || r.file_truncated then r else write_event e (f.encode e) r

  -- `persistLocked`
  unfoldable pub persist : Event → Recorder W → Recorder W
  persist e r =
      if not r.has_file || not (r.file_generation == e.generation)
      then persist_opened e (open_generation e.generation r)
      else persist_opened e (none, r)

  unfoldable pub record_validated : Event → Option String → Recorder W → Recorder W
  record_validated e (some err) r = append_logging_failure e.generation "无效日志事件已丢弃" err r
  record_validated e none r = persist e (append_memory e r)

  -- `Record`
  unfoldable pub record_event : Event → Recorder W → Recorder W
  record_event e r =
      if r.closed
      then r
      else let p = prepare e r in record_validated p.0 (validate f.trim_space p.0) p.1

  -- `Close`
  unfoldable pub close : Recorder W → Option String × Recorder W
  close r = if r.closed then (none, r) else close_file (record r { closed = true; events = [] })

-- The recorder that `NewRecorder` returns for a configuration that it accepts.
unfoldable pub new_recorder : {W : Type 0} → ℕ → ℕ → W → Recorder W
new_recorder capacity max_file_bytes w = record {
  capacity = capacity;
  max_file_bytes = max_file_bytes;
  sequence = 0;
  events = [];
  has_file = false;
  file_bytes = 0;
  file_generation = 0;
  file_truncated = false;
  disk_degraded = false;
  closed = false;
  world = w;
}
