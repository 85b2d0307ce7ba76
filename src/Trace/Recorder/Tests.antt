-- ===== src/Trace/Recorder/Tests.antt =====
-- internal/traceevent/recorder.go on a file system that accepts everything.
use overseas.Base.{ℕ, ◌+◌, ◌≡◌, false, none, some, List, [], ◌∷◌, length, take, drop, ltb, arith}
use overseas.Trace.Event.{Event}
use overseas.Trace.Recorder.{
  Files, Recorder, created, new_recorder, record_event, batch_of, logging_event,
}
use overseas.Trace.Recorder.Numbers.{IsNumbered, newer}
use overseas.Trace.Recorder.Ring.{IsRing, record_event-IsRing}
use overseas.Trace.Recorder.Pages.{batch_of-pages}

abbrev demo_files : Files ℕ
demo_files = record {
  now = λ w. (w + 1, w + 1);
  sanitize = λ text. (text, false);
  trim_space = λ text. text;
  encode = λ e. some (1 ∷ 2 ∷ []);
  encode_error = "";
  create = λ stamp suffix generation w. (created, w);
  write = λ bytes w. (none, w);
  sync = λ w. (none, w);
  close = λ w. (none, w);
  is_invalid = λ e. false;
  prune = λ w. (none, w);
}

abbrev demo_recorder : Recorder ℕ
demo_recorder = new_recorder 2 100 0

abbrev demo_event : Event
demo_event = logging_event 1 "warning" "m" ""

demo_recorder-IsRing : IsRing 2 demo_recorder
unfolding new_recorder
demo_recorder-IsRing = record {
  numbered = omega arith;
  bounded = omega arith;
  held = omega arith;
  free = omega arith;
}

record_event-IsRing_example : IsRing 0 (record_event demo_files demo_event demo_recorder)
record_event-IsRing_example =
    record_event-IsRing demo_files demo_event demo_recorder demo_recorder-IsRing

abbrev numbered_event : ℕ → Event
numbered_event n = record (logging_event 1 "warning" "m" "") { sequence = n }

abbrev demo_events : List Event
demo_events = numbered_event 3 ∷ numbered_event 4 ∷ numbered_event 6 ∷ []

demo_events-IsNumbered : IsNumbered 0 6 demo_events
demo_events-IsNumbered = (omega arith, (omega arith, (omega arith, omega arith)))

batch_of-pages_example :
    ((batch_of 3 1 demo_events).events ≡ take 1 (newer 3 demo_events))
    × ((batch_of 3 1 demo_events).has_more ≡ ltb 1 (length (newer 3 demo_events)))
    × (newer (batch_of 3 1 demo_events).next_sequence demo_events ≡ drop 1 (newer 3 demo_events))
batch_of-pages_example = batch_of-pages 3 1 0 6 demo_events demo_events-IsNumbered (omega arith)
