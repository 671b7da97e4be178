-- ===== src/ResultEventSink/Order.antt =====
-- ResultEventSink: what reaches the pipe.
use my_iperf.Prelude.{
  ◌≡◌, sym, ap, ap₂, ◌∙◌, Text, text, Bytes, true, false, Option, none, some, List, [], ◌∷◌, ◌++◌,
  flatten, append_assoc, append-nil, arith,
}
use my_iperf.ResultEventSink.{
  ResultEventSink, Written, Step, State, publish_checks, publish_pushes, pick, worker_takes,
  worker_writes, pipe_bytes, stop_begins, stop_ends, step, run,
}

abbrev held : Option Text → Bytes
held none = []
held (some line) = line

-- The bytes that the sink has still to write, in order.
unfoldable pub waiting : ResultEventSink → Bytes
waiting s = held s.line ++ flatten s.queue

-- A thread that has ended left nothing behind.
pub record IsSound (s : ResultEventSink) : Type 0 where
  pub ended : s.worker_lives ≡ false → (s.running ≡ false) × (s.line ≡ none) × (s.queue ≡ [])

-- A step in which no line is lost or written in part: a write fails only as a whole, and only while
-- the sink runs, and a line is pushed only while the thread lives.
unfoldable pub LosesNothing : ResultEventSink → Step → Type 0
LosesNothing s (Step.writes (Written.part n)) = (n ≡ 0) × (s.running ≡ true)
LosesNothing s (Step.pushes k) = s.worker_lives ≡ true
LosesNothing s _ = Unit

-- The line that a step pushes.
unfoldable pub accepts : ResultEventSink → Step → Bytes
accepts s (Step.pushes k) = elim (pick k s.entering) [
  | none ↦ []
  | some (event, others) ↦ event ++ text "\n"
]
accepts s _ = []

step-IsSound :
    (s : ResultEventSink) (pipe : Bytes) (e : Step)
    → IsSound s
    → LosesNothing s e
    → IsSound (step (s, pipe) e).0
unfolding LosesNothing step publish_checks publish_pushes worker_takes worker_writes stop_begins
    stop_ends
step-IsSound s pipe e h k = ground arith

flatten_snoc : (q : List Text) (l : Text) → flatten (q ++ l ∷ []) ≡ flatten q ++ l
flatten_snoc [] l = append-nil l
flatten_snoc (x ∷ q) l = ap (λ y. x ++ y) (flatten_snoc q l) ∙ sym (append_assoc x (flatten q) l)

step-waiting :
    (s : ResultEventSink) (pipe : Bytes) (e : Step)
    → IsSound s
    → LosesNothing s e
    → let (s', pipe') = step (s, pipe) e in pipe' ++ waiting s' ≡ (pipe ++ waiting s) ++ accepts s e
unfolding step publish_checks publish_pushes worker_takes worker_writes pipe_bytes stop_begins
    stop_ends waiting LosesNothing accepts
step-waiting s pipe (Step.checks event) h k = grind (arith, append_assoc, append-nil, flatten_snoc)
step-waiting s pipe (Step.pushes n) h k = grind (arith, append_assoc, append-nil, flatten_snoc)
step-waiting s pipe Step.takes h k = grind (arith, append_assoc, append-nil, flatten_snoc)
step-waiting s pipe (Step.writes w) h k = grind (arith, append_assoc, append-nil, flatten_snoc)
step-waiting s pipe Step.begins_stop h k = sym (append-nil (pipe ++ waiting s))
step-waiting s pipe Step.ends_stop h k = grind (arith, append_assoc, append-nil, flatten_snoc)

-- No step of a run loses anything.
unfoldable pub LosesNone : State → List Step → Type 0
LosesNone s [] = Unit
LosesNone s (e ∷ es) = LosesNothing s.0 e × LosesNone (step s e) es

-- The lines that a run pushes.
unfoldable pub accepted : State → List Step → Bytes
unfolding accepts
accepted s [] = []
accepted s (e ∷ es) = accepts s.0 e ++ accepted (step s e) es

pub run-IsSound : (s : State) (es : List Step) → IsSound s.0 → LosesNone s es → IsSound (run s es).0
unfolding run LosesNone
run-IsSound s [] h k = h
run-IsSound s (e ∷ es) h k = run-IsSound (step s e) es (step-IsSound s.0 s.1 e h k.0) k.1

-- At every moment of a run, what the pipe holds and what is still to be written are together the lines
-- that were pushed, in the order of their pushes, behind what was there before: if no line is pushed
-- after the thread has ended (a call of `publish` that looked at `running` before the stop may do
-- so), and the writes take a whole line or, while the sink runs, fail as a whole. The thread may be
-- anywhere in its round, and any number of calls of `publish` between their look and their push.
pub run-waiting :
    (s : State) (es : List Step)
    → IsSound s.0
    → LosesNone s es
    → (run s es).1 ++ waiting (run s es).0 ≡ (s.1 ++ waiting s.0) ++ accepted s es
unfolding run accepted LosesNone
run-waiting s [] h k = sym (append-nil (s.1 ++ waiting s.0))
run-waiting s (e ∷ es) h k =
    run-waiting (step s e) es (step-IsSound s.0 s.1 e h k.0) k.1
    ∙ (ap (λ x. x ++ accepted (step s e) es) (step-waiting s.0 s.1 e h k.0)
        ∙ append_assoc (s.1 ++ waiting s.0) (accepts s.0 e) (accepted (step s e) es))

ended-waiting : (s : ResultEventSink) → IsSound s → s.worker_lives ≡ false → waiting s ≡ []
unfolding waiting
ended-waiting s h e =
    let (stopped, no_line, no_queue) = h.ended e in
    ap₂ (λ l q. held l ++ flatten q) no_line no_queue

-- When the thread has ended, every line that was pushed is in the pipe, under the same conditions.
pub run-delivers :
    (s : State) (es : List Step)
    → IsSound s.0
    → waiting s.0 ≡ []
    → LosesNone s es
    → (run s es).0.worker_lives ≡ false
    → (run s es).1 ≡ s.1 ++ accepted s es
run-delivers s es h w k e =
    sym (append-nil (run s es).1)
    ∙ (ap (λ x. (run s es).1 ++ x) (sym (ended-waiting (run s es).0 (run-IsSound s es h k) e))
        ∙ (run-waiting s es h k
            ∙ (ap (λ x. (s.1 ++ x) ++ accepted s es) w
                ∙ ap (λ x. x ++ accepted s es) (append-nil s.1))))
