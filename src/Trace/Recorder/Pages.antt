-- ===== src/Trace/Recorder/Pages.antt =====
-- internal/traceevent/recorder.go: reading the events by a cursor.
use overseas.Base.{
  ℕ, zero, suc, ◌+◌, ◌≤◌, ◌<◌, true, false, List, [], ◌∷◌, ◌++◌, leb, ltb, ◌==◌, ◌≡◌, refl, arith,
  length, drop, take, Bool-cases, if_true, if_false, inl, inr, length-append, sym, ◌∙◌, ap,
}
use overseas.Trace.Event.{Event, Batch}
use overseas.Trace.Recorder.{collect, batch_of, empty_batch}
use overseas.Trace.Recorder.Numbers.{IsNumbered, newer, newer-IsNumbered}

-- What a page of at most `room` events, read from `es`, says of the events `new` after the cursor.
record IsPage (old : List Event) (room : ℕ) (new es : List Event) (next : ℕ) (b : Batch)
    : Type 0 where
  events : b.events ≡ old ++ take room new
  has_more : b.has_more ≡ ltb room (length new)
  rest : newer b.next_sequence es ≡ drop room new
  later : next ≤ b.next_sequence

skip_newer : (a : ℕ) (e : Event) (es : List Event) → e.sequence ≤ a → newer a (e ∷ es) ≡ newer a es
skip_newer a e es h = ground arith

take_newer :
    (a : ℕ) (e : Event) (es : List Event) → a < e.sequence → newer a (e ∷ es) ≡ e ∷ newer a es
take_newer a e es h = ground arith

append_one :
    (xs : List Event) (e : Event) (ys : List Event) → (xs ++ (e ∷ [])) ++ ys ≡ xs ++ (e ∷ ys)
append_one [] e ys = refl
append_one (x ∷ xs) e ys = ap (λ l. x ∷ l) (append_one xs e ys)

append_none : (xs : List Event) → xs ≡ xs ++ []
append_none [] = refl
append_none (x ∷ xs) = ap (λ l. x ∷ l) (append_none xs)

take_nil : (n : ℕ) → take {A = Event} n [] ≡ []
take_nil zero = refl
take_nil (suc n) = refl

drop_nil : (n : ℕ) → drop {A = Event} n [] ≡ []
drop_nil zero = refl
drop_nil (suc n) = refl

leq_trans : {a b c : ℕ} → a ≤ b → b ≤ c → a ≤ c
leq_trans h k = omega arith

ltb-suc : (a b : ℕ) → ltb a b ≡ ltb (suc a) (suc b)
ltb-suc a b = ground arith

nonzero : (n : ℕ) → 0 < n → (n == 0) ≡ false
nonzero n h = ground arith

leq_refl : (n : ℕ) → n ≤ n
leq_refl n = omega arith

module _ (after limit : ℕ) where
  -- The batch when an event is taken.
  abbrev taken : Event → Batch → Batch
  taken e b = record b { events = b.events ++ (e ∷ []); next_sequence = e.sequence }

  collect_old :
      (e : Event) (es : List Event) (b : Batch)
      → leb e.sequence after ≡ true
      → collect after limit (e ∷ es) b ≡ collect after limit es b
  unfolding collect
  collect_old e es b h = if_true _ _ h

  collect_full :
      (e : Event) (es : List Event) (b : Batch)
      → leb e.sequence after ≡ false
      → (length b.events == limit) ≡ true
      → collect after limit (e ∷ es) b ≡ record b { has_more = true }
  unfolding collect
  collect_full e es b h k = if_false _ _ h ∙ if_true _ _ k

  collect_new :
      (e : Event) (es : List Event) (b : Batch)
      → leb e.sequence after ≡ false
      → (length b.events == limit) ≡ false
      → collect after limit (e ∷ es) b ≡ collect after limit es (taken e b)
  unfolding collect
  collect_new e es b h k = if_false _ _ h ∙ if_false _ _ k

  full-IsPage :
      (e : Event) (es : List Event) (b : Batch)
      → after < e.sequence
      → length b.events ≡ limit
      → newer b.next_sequence (e ∷ es) ≡ newer after (e ∷ es)
      → IsPage b.events 0
          (newer after (e ∷ es))
          (e ∷ es)
          b.next_sequence
          (collect after limit (e ∷ es) b)
  full-IsPage e es b lt size same =
      let c = collect_full e es b (ground arith) (ground arith) in
      let k = take_newer after e es lt in
      record {
        events = ap (λ (x : Batch). x.events) c ∙ append_none b.events;
        has_more =
            ap (λ (x : Batch). x.has_more) c ∙ sym (ap (λ l. ltb 0 (length l)) k ∙ ground arith);
        rest = ap (λ (x : Batch). newer x.next_sequence (e ∷ es)) c ∙ same;
        later = rw c (leq_refl b.next_sequence);
      }

  skipped_same :
      (e : Event) (es : List Event) (b : Batch)
      → e.sequence ≤ after
      → after ≤ b.next_sequence
      → newer b.next_sequence (e ∷ es) ≡ newer after (e ∷ es)
      → newer b.next_sequence es ≡ newer after es
  skipped_same e es b le above same =
      sym (skip_newer b.next_sequence e es (omega arith)) ∙ same ∙ skip_newer after e es le

  old-IsPage :
      (room : ℕ) (e : Event) (es : List Event) (b : Batch)
      → e.sequence ≤ after
      → after ≤ b.next_sequence
      → IsPage b.events room (newer after es) es b.next_sequence (collect after limit es b)
      → IsPage b.events room
          (newer after (e ∷ es))
          (e ∷ es)
          b.next_sequence
          (collect after limit (e ∷ es) b)
  old-IsPage room e es b le above q =
      let c = collect_old e es b (ground arith) in
      let k = skip_newer after e es le in
      let reached = q.later in
      record {
        events =
            ap (λ (x : Batch). x.events) c ∙ q.events ∙ ap (λ l. b.events ++ take room l) (sym k);
        has_more =
            ap (λ (x : Batch). x.has_more) c ∙ q.has_more ∙ ap (λ l. ltb room (length l)) (sym k);
        rest =
            ap (λ (x : Batch). newer x.next_sequence (e ∷ es)) c
            ∙ skip_newer (collect after limit es b).next_sequence e es (omega arith)
            ∙ q.rest
            ∙ ap (drop room) (sym k);
        later = rw c q.later;
      }

  next-IsPage :
      (room : ℕ) (e : Event) (es : List Event) (b : Batch)
      → after < e.sequence
      → b.next_sequence ≤ e.sequence
      → collect after limit (e ∷ es) b ≡ collect after limit es (taken e b)
      → IsPage
          (b.events ++ (e ∷ []))
          room
          (newer after es)
          es
          e.sequence
          (collect after limit es (taken e b))
      → IsPage b.events
          (suc room)
          (newer after (e ∷ es))
          (e ∷ es)
          b.next_sequence
          (collect after limit (e ∷ es) b)
  next-IsPage room e es b lt next c q =
      let k = take_newer after e es lt in
      let reached = q.later in
      record {
        events =
            ap (λ (x : Batch). x.events) c
            ∙ q.events
            ∙ append_one b.events e (take room (newer after es))
            ∙ ap (λ l. b.events ++ take (suc room) l) (sym k);
        has_more =
            ap (λ (x : Batch). x.has_more) c
            ∙ q.has_more
            ∙ ltb-suc room (length (newer after es))
            ∙ ap (λ l. ltb (suc room) (length l)) (sym k);
        rest =
            ap (λ (x : Batch). newer x.next_sequence (e ∷ es)) c
            ∙ skip_newer (collect after limit es (taken e b)).next_sequence e es q.later
            ∙ q.rest
            ∙ ap (drop (suc room)) (sym k);
        later = rw c (leq_trans next q.later);
      }

  new-IsPage :
      (room : ℕ) (e : Event) (es : List Event) (b : Batch)
      → after < e.sequence
      → length b.events + room ≡ limit
      → newer b.next_sequence (e ∷ es) ≡ newer after (e ∷ es)
      → ((k : ℕ)
          → length b.events + suc k ≡ limit
          → IsPage b.events
              (suc k)
              (newer after (e ∷ es))
              (e ∷ es)
              b.next_sequence
              (collect after limit (e ∷ es) b))
      → IsPage b.events room
          (newer after (e ∷ es))
          (e ∷ es)
          b.next_sequence
          (collect after limit (e ∷ es) b)
  new-IsPage zero e es b lt size same taken_page = full-IsPage e es b lt (omega arith) same
  new-IsPage (suc k) e es b lt size same taken_page = taken_page k size

  length_taken :
      (e : Event) (b : Batch) (k : ℕ)
      → length b.events + suc k ≡ limit
      → length (b.events ++ (e ∷ [])) + k ≡ limit
  length_taken e b k h = omega (arith, length-append b.events (e ∷ []))

  newer_above :
      (e : Event) (es : List Event) (high : ℕ)
      → after < e.sequence
      → IsNumbered e.sequence high es
      → newer e.sequence es ≡ newer after es
  newer_above e es high lt p =
      newer-IsNumbered e.sequence e.sequence high es (leq_refl e.sequence) p
      ∙ sym (newer-IsNumbered after e.sequence high es (omega arith) p)

  collect-IsPage :
      (low high room : ℕ) (es : List Event) (b : Batch)
      → IsNumbered low high es
      → length b.events + room ≡ limit
      → b.has_more ≡ false
      → after ≤ b.next_sequence
      → newer b.next_sequence es ≡ newer after es
      → ((x : ℕ) → after < x → low < x → b.next_sequence ≤ x)
      → IsPage b.events room (newer after es) es b.next_sequence (collect after limit es b)
  unfolding collect
  collect-IsPage low high room [] b p size more above same ahead = record {
    events = append_none b.events ∙ ap (λ l. b.events ++ l) (sym (take_nil room));
    has_more = more ∙ ground arith;
    rest = sym (drop_nil room);
    later = omega arith;
  }
  collect-IsPage low high room (e ∷ es) b (lt, p) size more above same ahead =
      elim (Bool-cases (leb e.sequence after)) [
        | inl old ↦ old-IsPage room e es b (ground arith) above (
            collect-IsPage e.sequence high room es b p size more above
              (skipped_same e es b (ground arith) above same) (λ x h k. ahead x h (omega arith)))
        | inr new ↦ new-IsPage room e es b (ground arith) size same (λ k full.
            next-IsPage k e es b (ground arith) (ahead e.sequence (ground arith) lt)
              (collect_new e es b new (ground arith))
              (collect-IsPage e.sequence high k es (taken e b) p (length_taken e b k full) more
                (ground arith) (newer_above e es high (ground arith) p) (λ x h k. omega arith)))
      ]

-- For events numbered in order: `Batch` returns the first `limit` events after the cursor and says
-- whether there are more, and reading on from the cursor that it returns finds exactly the others.
pub batch_of-pages :
    (after limit low high : ℕ) (es : List Event)
    → IsNumbered low high es
    → 0 < limit
    → ((batch_of after limit es).events ≡ take limit (newer after es))
      × ((batch_of after limit es).has_more ≡ ltb limit (length (newer after es)))
      × (newer (batch_of after limit es).next_sequence es ≡ drop limit (newer after es))
unfolding batch_of
batch_of-pages after limit low high [] p h =
    (sym (take_nil limit), ground arith, sym (drop_nil limit))
batch_of-pages after limit low high (e ∷ es) p h =
    let q =
      collect-IsPage after limit low high limit (e ∷ es)
        (record (empty_batch after) { oldest_sequence = e.sequence }) p (omega arith) refl
        (leq_refl after) refl (λ x k l. omega arith) in
    let c =
      if_false (empty_batch after)
        (collect after limit (e ∷ es) (record (empty_batch after) { oldest_sequence = e.sequence }))
        (nonzero limit h) in
    (
      ap (λ (b : Batch). b.events) c ∙ q.events,
      ap (λ (b : Batch). b.has_more) c ∙ q.has_more,
      ap (λ (b : Batch). newer b.next_sequence (e ∷ es)) c ∙ q.rest,
    )
