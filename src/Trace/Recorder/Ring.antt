-- ===== src/Trace/Recorder/Ring.antt =====
-- internal/traceevent/recorder.go: the memory of the recorder.
use overseas.Base.{
  ℕ, ◌+◌, ◌%◌, ◌^◌, ◌≤◌, ◌<◌, String, Bool, true, false, Option, none, some, List, [], ◌∷◌, not,
  ◌==◌, if◌then◌else◌, ◌≡◌, refl, arith, length, tail, Bool-cases, inl, inr, length-append, zero,
  suc,
}
use overseas.Trace.Event.{Event}
use overseas.Trace.Recorder.{
  Recorder, Files, prepare, prepare_and_append, append_memory, append_logging_failure, on_files,
  conclude_close, conclude_sync, close_file, create_file, create_first, reset_file, open_generation,
  conclude_sync_event, conclude_write, conclude_terminal, write_terminal, truncate_file,
  write_event, persist_opened, persist, record_validated, record_event, Created, created, exists,
  refused,
}
use overseas.Trace.Recorder.Numbers.{
  IsNumbered, IsNumbered-weaken, tail-IsNumbered, append-IsNumbered,
}

tail_room : (es : List Event) (n : ℕ) → length es ≡ n → 0 < n → suc (length (tail es)) ≡ n
tail_room [] n e h = omega arith
tail_room (x ∷ xs) n e h = omega arith

lt→le : {a b : ℕ} → a < b → a ≤ b
lt→le h = omega arith

next_number : (s n : ℕ) → s + suc n < 2 ^ 64 → s < (s + 1) % 2 ^ 64
next_number s n h = omega arith

next_free : (s n : ℕ) → s + suc n < 2 ^ 64 → (s + 1) % 2 ^ 64 + n < 2 ^ 64
next_free s n h = omega arith

module _ {W : Type 0} where
  -- The remembered events are numbered and fit the memory, and `n` more numbers are free.
  pub record IsRing (n : ℕ) (r : Recorder W) : Type 0 where
    pub numbered : IsNumbered 0 r.sequence r.events
    pub bounded : length r.events ≤ r.capacity
    pub held : 0 < r.capacity
    pub free : r.sequence + n < 2 ^ 64

  IsRing-less : (n : ℕ) (r : Recorder W) → IsRing (suc n) r → IsRing n r
  IsRing-less n r p = ground arith

  same-IsRing :
      (n : ℕ) (r r' : Recorder W)
      → r'.sequence ≡ r.sequence
      → r'.events ≡ r.events
      → r'.capacity ≡ r.capacity
      → IsRing n r
      → IsRing n r'
  same-IsRing n r r' s e c p = record {
    numbered = rw (s, e) p.numbered;
    bounded = rw (e, c) p.bounded;
    held = rw c p.held;
    free = rw s p.free;
  }

  if-IsRing :
      {n : ℕ} {r r' : Recorder W} (b : Bool)
      → IsRing n r
      → IsRing n r'
      → IsRing n (if b then r else r')
  if-IsRing true p q = p
  if-IsRing false p q = q

  pick-IsRing :
      {A : Type 0} {n : ℕ} (b : Bool) (x y : A × Recorder W)
      → IsRing n x.1
      → IsRing n y.1
      → IsRing n (if b then x else y).1
  pick-IsRing true x y p q = p
  pick-IsRing false x y p q = q

  append_memory-IsRing :
      (n high : ℕ) (e : Event) (r : Recorder W)
      → IsNumbered 0 high r.events
      → high < e.sequence
      → e.sequence ≡ r.sequence
      → length r.events ≤ r.capacity
      → 0 < r.capacity
      → r.sequence + n < 2 ^ 64
      → IsRing n (append_memory e r)
  unfolding append_memory
  append_memory-IsRing n high e r p lt same bound held free =
      elim (Bool-cases (length r.events == r.capacity)) [
        | inl full ↦
            let numbered =
              append-IsNumbered 0 high (tail r.events) e lt (tail-IsNumbered 0 high r.events p) in
            let room = tail_room r.events r.capacity (ground arith) held in
            let size = length-append (tail r.events) (e ∷ []) in
            ground (arith, numbered, room, size)
        | inr spare ↦
            let numbered = append-IsNumbered 0 high r.events e lt p in
            let size = length-append r.events (e ∷ []) in ground (arith, numbered, size)
      ]

module _ {W : Type 0} (f : Files W) where
  prepare_and_append-IsRing :
      (n : ℕ) (e : Event) (r : Recorder W)
      → IsRing (suc n) r
      → IsRing n (prepare_and_append f e r).1
  unfolding prepare_and_append prepare
  prepare_and_append-IsRing n e r p =
      append_memory-IsRing n r.sequence _ _ p.numbered (next_number r.sequence n p.free) refl
        p.bounded p.held (next_free r.sequence n p.free)

  append_logging_failure-IsRing :
      (g : ℕ) (m d : String) (r : Recorder W)
      → IsRing 1 r
      → IsRing 0 (append_logging_failure f g m d r)
  unfolding append_logging_failure
  append_logging_failure-IsRing g m d r p =
      if-IsRing r.disk_degraded (IsRing-less 0 r p)
        (prepare_and_append-IsRing 0 _ _ (same-IsRing 1 r _ refl refl refl p))

  on_files-IsRing :
      {A : Type 0} (n : ℕ) (call : W → A × W) (r : Recorder W)
      → IsRing n r
      → IsRing n (on_files f call r).1
  unfolding on_files
  on_files-IsRing n call r p = same-IsRing n r _ refl refl refl p

  conclude_close-IsRing :
      (n : ℕ) (o : Option String) (r : Recorder W) → IsRing n r → IsRing n (conclude_close f o r).1
  unfolding conclude_close
  conclude_close-IsRing n none r p = p
  conclude_close-IsRing n (some e) r p = p

  conclude_sync-IsRing :
      (n : ℕ) (o : Option String) (r : Recorder W) → IsRing n r → IsRing n (conclude_sync f o r).1
  unfolding conclude_sync
  conclude_sync-IsRing n none r p = conclude_close-IsRing n _ _ (on_files-IsRing n f.close r p)
  conclude_sync-IsRing n (some e) r p =
      pick-IsRing (f.is_invalid e) _ _ (conclude_close-IsRing n _ _ (on_files-IsRing n f.close r p))
        (on_files-IsRing n f.close r p)

  close_file-IsRing : (n : ℕ) (r : Recorder W) → IsRing n r → IsRing n (close_file f r).1
  unfolding close_file
  close_file-IsRing n r p =
      pick-IsRing (not r.has_file) _ _ p (
        conclude_sync-IsRing n _ _
          (on_files-IsRing n f.sync _ (same-IsRing n r _ refl refl refl p)))

  create_file-IsRing :
      (n left stamp suffix g : ℕ) (c : Created × Recorder W)
      → IsRing n c.1
      → IsRing n (create_file f left stamp suffix g c).1
  unfolding create_file
  create_file-IsRing n left stamp suffix g (created, r) p =
      on_files-IsRing n f.prune _ (same-IsRing n r _ refl refl refl p)
  create_file-IsRing n left stamp suffix g (refused e, r) p = p
  create_file-IsRing n zero stamp suffix g (exists, r) p = p
  create_file-IsRing n (suc left) stamp suffix g (exists, r) p =
      create_file-IsRing n left stamp (suffix + 1) g _
        (on_files-IsRing n (f.create stamp (suffix + 1) g) r p)

  create_first-IsRing :
      (n g : ℕ) (c : ℕ × Recorder W) → IsRing n c.1 → IsRing n (create_first f g c).1
  unfolding create_first
  create_first-IsRing n g (stamp, r) p =
      create_file-IsRing n 99 stamp 0 g _ (on_files-IsRing n (f.create stamp 0 g) r p)

  reset_file-IsRing :
      (n g : ℕ) (c : Option String × Recorder W) → IsRing n c.1 → IsRing n (reset_file f g c).1
  unfolding reset_file
  reset_file-IsRing n g (some e, r) p = p
  reset_file-IsRing n g (none, r) p =
      create_first-IsRing n g _ (on_files-IsRing n f.now _ (same-IsRing n r _ refl refl refl p))

  open_generation-IsRing :
      (n g : ℕ) (r : Recorder W) → IsRing n r → IsRing n (open_generation f g r).1
  unfolding open_generation
  open_generation-IsRing n g r p = reset_file-IsRing n g _ (close_file-IsRing n r p)

  conclude_sync_event-IsRing :
      (e : Event) (c : Option String × Recorder W)
      → IsRing 1 c.1
      → IsRing 0 (conclude_sync_event f e c)
  unfolding conclude_sync_event
  conclude_sync_event-IsRing e (none, r) p = IsRing-less 0 r p
  conclude_sync_event-IsRing e (some err, r) p = append_logging_failure-IsRing _ _ _ r p

  conclude_write-IsRing :
      (e : Event) (size : ℕ) (c : Option String × Recorder W)
      → IsRing 1 c.1
      → IsRing 0 (conclude_write f e size c)
  unfolding conclude_write
  conclude_write-IsRing e size (some err, r) p = append_logging_failure-IsRing _ _ _ r p
  conclude_write-IsRing e size (none, r) p =
      if-IsRing _ (same-IsRing 0 r _ refl refl refl (IsRing-less 0 r p)) (
        conclude_sync_event-IsRing e _
          (on_files-IsRing 1 f.sync _ (same-IsRing 1 r _ refl refl refl p)))

  conclude_terminal-IsRing :
      (n size : ℕ) (c : Option String × Recorder W)
      → IsRing n c.1
      → IsRing n (conclude_terminal f size c)
  unfolding conclude_terminal
  conclude_terminal-IsRing n size (some err, r) p = p
  conclude_terminal-IsRing n size (none, r) p =
      on_files-IsRing n f.sync _ (same-IsRing n r _ refl refl refl p)

  write_terminal-IsRing :
      (n : ℕ) (bytes : Option (List ℕ)) (r : Recorder W)
      → IsRing n r
      → IsRing n (write_terminal f bytes r)
  unfolding write_terminal
  write_terminal-IsRing n none r p = p
  write_terminal-IsRing n (some bytes) r p =
      if-IsRing _ (conclude_terminal-IsRing n _ _ (on_files-IsRing n (f.write _) r p)) p

  truncate_file-IsRing : (g : ℕ) (r : Recorder W) → IsRing 1 r → IsRing 0 (truncate_file f g r)
  unfolding truncate_file
  truncate_file-IsRing g r p =
      write_terminal-IsRing 0 _ _
        (prepare_and_append-IsRing 0 _ _ (same-IsRing 1 r _ refl refl refl p))

  write_event-IsRing :
      (e : Event) (bytes : Option (List ℕ)) (r : Recorder W)
      → IsRing 1 r
      → IsRing 0 (write_event f e bytes r)
  unfolding write_event
  write_event-IsRing e none r p = append_logging_failure-IsRing _ _ _ r p
  write_event-IsRing e (some bytes) r p =
      if-IsRing _ (truncate_file-IsRing e.generation r p)
        (conclude_write-IsRing e _ _ (on_files-IsRing 1 (f.write _) r p))

  persist_opened-IsRing :
      (e : Event) (c : Option String × Recorder W) → IsRing 1 c.1 → IsRing 0 (persist_opened f e c)
  unfolding persist_opened
  persist_opened-IsRing e (some err, r) p = append_logging_failure-IsRing _ _ _ r p
  persist_opened-IsRing e (none, r) p = if-IsRing _ (IsRing-less 0 r p) (write_event-IsRing e _ r p)

  persist-IsRing : (e : Event) (r : Recorder W) → IsRing 1 r → IsRing 0 (persist f e r)
  unfolding persist
  persist-IsRing e r p =
      if-IsRing _ (persist_opened-IsRing e _ (open_generation-IsRing 1 e.generation r p))
        (persist_opened-IsRing e (none, r) p)

  record_validated-IsRing :
      (e : Event) (o : Option String) (r : Recorder W)
      → IsRing 1 r
      → IsRing 1 (append_memory e r)
      → IsRing 0 (record_validated f e o r)
  unfolding record_validated
  record_validated-IsRing e (some err) r p q = append_logging_failure-IsRing _ _ _ r p
  record_validated-IsRing e none r p q = persist-IsRing e _ q

  prepare-IsRing :
      (n : ℕ) (e : Event) (r : Recorder W) → IsRing (suc n) r → IsRing n (prepare f e r).1
  unfolding prepare
  prepare-IsRing n e r p = record {
    numbered =
        IsNumbered-weaken 0 r.sequence _ r.events (lt→le (next_number r.sequence n p.free))
          p.numbered;
    bounded = p.bounded;
    held = p.held;
    free = next_free r.sequence n p.free;
  }

  -- While two more sequence numbers are free, `Record` keeps the memory within its capacity and its
  -- events numbered in order up to the last number given, whatever the file system answers.
  pub record_event-IsRing :
      (e : Event) (r : Recorder W) → IsRing 2 r → IsRing 0 (record_event f e r)
  unfolding record_event prepare_and_append
  record_event-IsRing e r p =
      if-IsRing r.closed (IsRing-less 0 r (IsRing-less 1 r p))
        (record_validated-IsRing _ _ _ (prepare-IsRing 1 e r p) (prepare_and_append-IsRing 1 e r p))
