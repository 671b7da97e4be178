-- ===== src/ResultEventSink/Drain.antt =====
-- ResultEventSink: the end of the thread.
use my_iperf.Prelude.{◌≡◌, Text, Bytes, true, false, none, List, [], ◌∷◌, ◌++◌}
use my_iperf.ResultEventSink.{ResultEventSink, Written, Step, State, written_bytes, step}

-- Rounds of the thread with these results of its writes, and the look at the queue that ends it.
pub rounds : List Written → List Step
rounds [] = Step.takes ∷ []
rounds (w ∷ ws) = Step.takes ∷ Step.writes w ∷ rounds ws

-- What one write of each line puts into the pipe.
pub attempts : List Written → List Text → Bytes
attempts [] lines = []
attempts (w ∷ ws) [] = []
attempts (w ∷ ws) (line ∷ lines) = written_bytes w line ++ attempts ws lines

-- A thread between two rounds, after `stop` has begun, with these lines queued.
record Draining (s : ResultEventSink) (lines : List Text) : Type 0 where
  pub stopping : s.running ≡ false
  pub lives : s.worker_lives ≡ true
  pub empty_handed : s.line ≡ none
  pub queued : s.queue ≡ lines

abbrev round : Written → State → State
unfolding step
round w s = step (step s Step.takes) (Step.writes w)
