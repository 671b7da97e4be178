-- ===== src/Examples/Events.antt =====
-- A result pipe: two events, of which the first is written on the second try, and their reader.
use my_iperf.Prelude.{◌≡◌, refl, text, true, List, [], ◌∷◌, ◌++◌, All, arith}
use my_iperf.ResultEventSink
use my_iperf.ResultEventSink.{
  ResultEventSink, Written, Step, State, make_sink, start, publish_checks, publish_pushes, pick,
  worker_takes, worker_writes, pipe_bytes, stop_begins,
}
use my_iperf.ResultEventSink.Order.{
  IsSound, waiting, LosesNothing, LosesNone, accepted, run-waiting,
}
use my_iperf.Verifier.PipeReader
use my_iperf.Verifier.PipeReader.{PipeReader, ReadResult, strip_return}
use my_iperf.Verifier.PipeReader.Split.{parts, keep, kept, text_lines}
use my_iperf.Verifier.PipeReader.Chunks.{arrived, run-text_lines}
use my_iperf.EndToEnd.Events.{IsLine, run-accepted_events}
use my_iperf.ResultEventSink.Calls.{accepted_events}

started : State
started = (start (text "p") make_sink, [])

abbrev history : List Step
history =
    Step.checks (text "a")
    ∷ Step.pushes 0
    ∷ Step.takes
    ∷ Step.writes (Written.part 0)
    ∷ Step.takes
    ∷ Step.checks (text "b")
    ∷ Step.writes Written.whole
    ∷ Step.begins_stop
    ∷ Step.pushes 0
    ∷ Step.takes
    ∷ Step.writes Written.whole
    ∷ Step.takes
    ∷ []

started-IsSound : IsSound started.0
unfolding started start make_sink
started-IsSound = record { ended = λ e. cc }

history-LosesNone : LosesNone started history
unfolding started start make_sink LosesNone LosesNothing ResultEventSink.step worker_takes
    worker_writes publish_checks publish_pushes pick stop_begins
history-LosesNone = ground arith

run-waiting_example :
    (ResultEventSink.run started history).1 ++ waiting (ResultEventSink.run started history).0
    ≡ (started.1 ++ waiting started.0) ++ accepted started history
run-waiting_example = run-waiting started history started-IsSound history-LosesNone

abbrev stopping : ResultEventSink
stopping = record make_sink { worker_lives = true; queue = text "a\n" ∷ text "b\n" ∷ [] }

abbrev reader : PipeReader
reader = record { name = text "server"; event_lines = []; error = [] }

abbrev pieces : List ReadResult
pieces =
    ReadResult.bytes_read (text "a")
    ∷ ReadResult.none_yet
    ∷ ReadResult.bytes_read (text "\nb\r\n\n")
    ∷ []

run-text_lines_example :
    (PipeReader.run reader pieces).event_lines ≡ [] ++ text_lines (arrived pieces)
run-text_lines_example = run-text_lines reader pieces

text_lines_sample : text_lines (arrived pieces) ≡ text "a" ∷ text "b" ∷ []
unfolding text_lines arrived parts keep kept strip_return
text_lines_sample = refl

abbrev sent : List ReadResult
sent = ReadResult.bytes_read (text "a") ∷ ReadResult.bytes_read (text "\nb\n") ∷ []

run-accepted_events_example :
    (PipeReader.run reader sent).event_lines ≡ [] ++ accepted_events started history
unfolding started start make_sink waiting arrived accepted_events ResultEventSink.run
    ResultEventSink.step worker_takes worker_writes publish_checks publish_pushes pick stop_begins
    pipe_bytes strip_return
run-accepted_events_example =
    (run-accepted_events started history reader sent started-IsSound refl refl history-LosesNone
      refl lines refl).0
  where
    lines : All IsLine (accepted_events started history)
    lines = (
      record { one_line = (omega arith, tt); no_return = refl; full = refl },
      (record { one_line = (omega arith, tt); no_return = refl; full = refl }, tt),
    )
