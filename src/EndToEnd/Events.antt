-- ===== src/EndToEnd/Events.antt =====
-- From the events that a run publishes, through the thread and the pipe, to the lines that the
-- verifier reads: MyIperf/src/myiperf/ResultEventSink.cpp and ResultPipeVerifier/src/main.cpp.
use my_iperf.Prelude.{
  ℕ, ◌+◌, ◌≡◌, ◌≢◌, refl, ap, ◌∙◌, Text, text, Bytes, false, Option, none, some, List, [], ◌∷◌,
  ◌++◌, map, flatten, is_empty, All, ◌==◌, arith,
}
use my_iperf.ResultEventSink
use my_iperf.ResultEventSink.{ResultEventSink, Step, State, pick}
use my_iperf.ResultEventSink.Calls.{pushed, accepted_events, checked_events, copies, run-copies}
use my_iperf.ResultEventSink.Order.{IsSound, waiting, LosesNone, accepts, accepted, run-delivers}
use my_iperf.Verifier.PipeReader
use my_iperf.Verifier.PipeReader.{PipeReader, ReadResult, strip_return, newline}
use my_iperf.Verifier.PipeReader.Split.{parts, parts-other, push, keep, kept, text_lines}
use my_iperf.Verifier.PipeReader.Chunks.{arrived, run-text_lines}

-- A text that a reader takes for one line: no newline in it, no carriage return at its end, not empty.
pub record IsLine (t : Text) : Type 0 where
  pub one_line : All (λ c. c ≢ 10) t
  pub no_return : strip_return t ≡ t
  pub full : is_empty t ≡ false

abbrev ended_line : Text → Text
ended_line t = t ++ text "\n"

chosen :
    (o : Option (Text × List Text)) (later : List Text) {x : Bytes}
    → x ≡ flatten (map ended_line later)
    → (elim o [ none ↦ [] | some (event, others) ↦ ended_line event ]) ++ x
      ≡ flatten (map ended_line (pushed o later))
chosen none later e = e
chosen (some (event, others)) later e = ap (λ y. ended_line event ++ y) e

accepted-events :
    (s : State) (es : List Step) → accepted s es ≡ flatten (map ended_line (accepted_events s es))
unfolding accepted accepts accepted_events
accepted-events s [] = refl
accepted-events s (Step.pushes k ∷ es) =
    let next = ResultEventSink.step s (Step.pushes k) in
    chosen (pick k s.0.entering) (accepted_events next es) (accepted-events next es)
accepted-events s (Step.checks event ∷ es) =
    accepted-events (ResultEventSink.step s (Step.checks event)) es
accepted-events s (Step.takes ∷ es) = accepted-events (ResultEventSink.step s Step.takes) es
accepted-events s (Step.writes w ∷ es) = accepted-events (ResultEventSink.step s (Step.writes w)) es
accepted-events s (Step.begins_stop ∷ es) =
    accepted-events (ResultEventSink.step s Step.begins_stop) es
accepted-events s (Step.ends_stop ∷ es) = accepted-events (ResultEventSink.step s Step.ends_stop) es

other : (c : ℕ) → c ≢ 10 → (c == newline) ≡ false
other c h = ground arith

parts-line :
    (t rest : Text)
    → All (λ c. c ≢ 10) t
    → parts (ended_line t ++ rest) ≡ (t ∷ (parts rest).0, (parts rest).1)
unfolding parts
parts-line [] rest h = refl
parts-line (c ∷ t) rest h =
    parts-other c (ended_line t ++ rest) (other c h.0) ∙ ap (push c) (parts-line t rest h.1)

keep_full : (t : Text) (lines : List Text) → is_empty t ≡ false → keep t lines ≡ t ∷ lines
unfolding keep
keep_full [] lines h = cc
keep_full (c ∷ t) lines h = refl

text_lines-flatten :
    (ts : List Text) → All IsLine ts → text_lines (flatten (map ended_line ts)) ≡ ts
unfolding text_lines kept keep parts strip_return
text_lines-flatten [] h = refl
text_lines-flatten (t ∷ ts) h =
    let rest = flatten (map ended_line ts) in
    let (line, lines) = h in
    ap (λ p. kept (p.0 ++ p.1 ∷ [])) (parts-line t rest line.one_line)
    ∙ (ap (λ x. keep x (text_lines rest)) line.no_return
        ∙ (keep_full t (text_lines rest) line.full ∙ ap (◌∷◌ t) (text_lines-flatten ts lines)))

-- The verifier reads exactly the events whose lines were pushed, in the order of their pushes, when the
-- thread has ended and the bytes of the pipe have arrived, in whatever pieces: if every such event is
-- one line, no line was pushed after the thread had ended, no write failed after the sink was
-- stopped, and none was cut. Of the events of the calls of `publish` that found the sink running, each
-- is among these as often as it was published, but for the calls that have not come to their push.
pub run-accepted_events :
    (s : State) (es : List Step) (r : PipeReader) (results : List ReadResult)
    → IsSound s.0
    → waiting s.0 ≡ []
    → s.1 ≡ []
    → LosesNone s es
    → (ResultEventSink.run s es).0.worker_lives ≡ false
    → All IsLine (accepted_events s es)
    → arrived results ≡ (ResultEventSink.run s es).1
    → ((PipeReader.run r results).event_lines ≡ r.event_lines ++ accepted_events s es)
      × ((t : Text)
          → copies t s.0.entering + copies t (checked_events s es)
            ≡ copies t (ResultEventSink.run s es).0.entering + copies t (accepted_events s es))
run-accepted_events s es r results sound w p k e lines a = (
  run-text_lines r results
      ∙ ap (λ x. r.event_lines ++ x)
          (ap text_lines (
              a
              ∙ (run-delivers s es sound w k e
                  ∙ (ap (λ x. x ++ accepted s es) p ∙ accepted-events s es)))
            ∙ text_lines-flatten (accepted_events s es) lines),
  λ t. run-copies t s es,
)
