-- ===== src/ResultEventSink.antt =====
-- MyIperf/src/myiperf/ResultEventSink.{h,cpp}: the queue of result events and the thread that writes
-- them to the result pipe. What the calls and the thread do is a sequence of steps, each under the
-- lock of the queue or on variables of the thread alone; `writeLine` is its result. `publish` is two
-- steps, its look at `running`, which takes no lock, and its push; other threads may run between them.
pub mod Order
pub mod Drain
pub mod Calls
use my_iperf.Prelude.{
  ℕ, zero, suc, Text, text, Bytes, Bool, true, false, Option, none, some, List, [], ◌∷◌, ◌++◌, take,
  is_empty, if◌then◌else◌,
}

pub record ResultEventSink : Type 0 where
  pub pipe_name : Text
  pub queue : List Text
  pub running : Bool
  -- the events of the calls of `publish` that have found the sink running and not yet pushed their line
  pub entering : List Text
  pub warning_logged : Bool
  -- the thread, and the line that it has taken
  pub worker_lives : Bool
  pub line : Option Text

-- The constructor, on a platform with FIFOs.
unfoldable pub make_sink : ResultEventSink
make_sink = record {
  pipe_name = [];
  queue = [];
  running = false;
  entering = [];
  warning_logged = false;
  worker_lives = false;
  line = none;
}

-- `start` after its `stop()`.
unfoldable pub start : Text → ResultEventSink → ResultEventSink
start name s =
    if is_empty name
    then s
    else record s { pipe_name = name; warning_logged = false; running = true; worker_lives = true }

-- The start of `publish` of an event with the text `event`.
unfoldable pub publish_checks : Text → ResultEventSink → ResultEventSink
publish_checks event s = if s.running then record s { entering = s.entering ++ event ∷ [] } else s

-- One of a list, by its position, and the others.
unfoldable pub pick : ℕ → List Text → Option (Text × List Text)
pick k [] = none
pick zero (x ∷ xs) = some (x, xs)
pick (suc k) (x ∷ xs) = elim (pick k xs) [ none ↦ none | some (y, ys) ↦ some (y, x ∷ ys) ]

-- The end of the `k`th of the calls of `publish` that are under way.
unfoldable pub publish_pushes : ℕ → ResultEventSink → ResultEventSink
unfolding pick
publish_pushes k s = elim (pick k s.entering) [
  | none ↦ s
  | some (event, others) ↦ record s {
    entering = others;
    queue = s.queue ++ (event ++ text "\n") ∷ [];
  }
]

unfoldable pub enabled : ResultEventSink → Bool
enabled s = s.running

-- The start of `stop`: `running.exchange(false)`.
unfoldable pub stop_begins : ResultEventSink → ResultEventSink
stop_begins s = record s { running = false }

-- The end of `stop`, once the thread has ended.
unfoldable pub stop_ends : ResultEventSink → ResultEventSink
stop_ends s = if s.worker_lives then s else record s { queue = [] }

-- The first half of a round of `workerLoop`; nothing happens while the thread waits.
unfoldable pub worker_takes : ResultEventSink → ResultEventSink
worker_takes s = elim s.line [
  | some line ↦ s
  | none ↦ elim s.queue [
    | [] ↦ if s.running then s else record s { worker_lives = false }
    | line ∷ queue ↦ if s.worker_lives then record s { line = some line; queue = queue } else s
  ]
]

-- What `writeLine` did with the line: all of it is in the pipe, or only the first bytes.
pub data Written : Type 0 where
  whole : Written
  part : ℕ → Written

-- The second half of a round.
unfoldable pub worker_writes : Written → ResultEventSink → ResultEventSink
worker_writes w s = elim s.line [
  | none ↦ s
  | some line ↦ elim w [
    | whole ↦ record s { line = none }
    | part n ↦ record s {
      warning_logged = true;
      line = none;
      queue = if s.running then line ∷ s.queue else s.queue;
    }
  ]
]

abbrev pub written_bytes : Written → Text → Bytes
written_bytes Written.whole line = line
written_bytes (Written.part n) line = take n line

-- What a write adds to the pipe.
unfoldable pub pipe_bytes : Written → Option Text → Bytes
pipe_bytes w none = []
pipe_bytes w (some line) = written_bytes w line

pub data Step : Type 0 where
  checks : Text → Step
  pushes : ℕ → Step
  takes : Step
  writes : Written → Step
  begins_stop ends_stop : Step

abbrev pub State : Type 0
State = ResultEventSink × Bytes

unfoldable pub step : State → Step → State
unfolding publish_checks publish_pushes worker_takes worker_writes pipe_bytes stop_begins stop_ends
step (s, pipe) (Step.checks event) = (publish_checks event s, pipe)
step (s, pipe) (Step.pushes k) = (publish_pushes k s, pipe)
step (s, pipe) Step.takes = (worker_takes s, pipe)
step (s, pipe) (Step.writes w) = (worker_writes w s, pipe ++ pipe_bytes w s.line)
step (s, pipe) Step.begins_stop = (stop_begins s, pipe)
step (s, pipe) Step.ends_stop = (stop_ends s, pipe)

unfoldable pub run : State → List Step → State
unfolding step
run s [] = s
run s (e ∷ es) = run (step s e) es
