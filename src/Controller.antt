-- ===== src/Controller.antt =====
-- MyIperf/src/myiperf/TestController.cpp: how a run ends. The session's coroutine and `stopTest` may
-- both finalize the result; each exchange of an atomic flag is one step. Writing the result files is
-- outside the model: `export` stands for it and returns the warning.
use my_iperf.Prelude.{
  ℕ, Option, none, some, ◌≡◌, Text, text, [], ◌∷◌, Bool, true, false, not, ◌||◌, arith,
  if◌then◌else◌,
}
use my_iperf.Bus.{cancel_all}
use my_iperf.Generator
use my_iperf.Generator.{PacketGenerator}
use my_iperf.Receiver
use my_iperf.Receiver.{PacketReceiver}
use my_iperf.RunResult.{is_finished, Snapshot, TestRunResult, build_current_result}

pub record TestController (R : Type 0) : Type 0 where
  pub current : Snapshot R
  pub stopped : Bool
  pub completion_promise_set : Bool
  pub cli_block_flag : Bool
  pub result_finalized : Bool
  pub test_started : Bool
  pub last_result : TestRunResult R
  pub generator : PacketGenerator R
  pub receiver : PacketReceiver

module _ {R : Type 0} (export : TestRunResult R → Text) where
  unfoldable pub signal_completion : TestController R → TestController R
  signal_completion t = record t { completion_promise_set = true; cli_block_flag = true }

  -- The result with the warning of its export, which is empty where all went well.
  with_warning : TestRunResult R → TestRunResult R
  with_warning result = record result {
    result_export_warning = elim (export result) [
      | [] ↦ result.result_export_warning
      | c ∷ cs ↦ c ∷ cs
    ];
  }

  finalize : Text → Text → TestController R → TestController R
  unfolding with_warning
  finalize now failure_reason t =
      let result = with_warning (build_current_result now failure_reason t.current) in
      record t {
        result_finalized = true;
        last_result = result;
        current = record t.current { result_export_warning = result.result_export_warning };
      }

  unfoldable pub finalize_result_once : Text → Text → TestController R → TestController R
  unfolding finalize signal_completion
  finalize_result_once now failure_reason t =
      signal_completion (if t.result_finalized then t else finalize now failure_reason t)

  unfoldable pub completed_successfully : TestController R → Bool
  completed_successfully t =
      if not (is_finished t.current.state)
      then false
      else if not t.test_started || not t.result_finalized
      then true
      else t.last_result.success

  -- The end of `runTestCoroutine`, with the state that the session left.
  unfoldable pub finish_run : Text → Text → Snapshot R → TestController R → TestController R
  unfolding finalize_result_once
  finish_run now failure_reason left t =
      finalize_result_once now failure_reason (record t { current = left })

  -- `cancelAll` resumes the session that waits, if there is one: it ends with an exception, at a time,
  -- with a reason and in a state of its own.
  resume_session : Option (Text × Text × Snapshot R) → TestController R → TestController R
  unfolding finish_run
  resume_session none t = t
  resume_session (some (now, reason, left)) t = finish_run now reason left t

  stop_components : ℕ → TestController R → TestController R
  stop_components clock t = record t {
    generator = Generator.stop clock t.generator;
    receiver = Receiver.stop t.receiver;
  }

  cancel_messages : TestController R → TestController R
  cancel_messages t = record t {
    receiver = record t.receiver {
      sinks = record t.receiver.sinks { messages = (cancel_all t.receiver.sinks.messages).1 };
    };
  }

  -- The result is finalized if a test was started.
  unfoldable pub stop_test :
      Option (Text × Text × Snapshot R) → Text → ℕ → TestController R → TestController R
  unfolding finalize_result_once resume_session stop_components cancel_messages
  stop_test waiting now clock t =
      let stopped =
        stop_components clock
          (resume_session waiting (cancel_messages (record t { stopped = true }))) in
      if t.stopped
      then t
      else if stopped.test_started
      then finalize_result_once now (text "Test stopped before completion") stopped
      else stopped

  -- The first call that finalizes decides the result: a stop that comes after the end of the run, when
  -- no session waits any more, changes neither the result nor the verdict, and completion stays
  -- signalled.
  pub stop_test-finish_run :
      (now later reason : Text) (clock : ℕ) (left : Snapshot R) (t : TestController R)
      → let ended = finish_run now reason left t in
        let after = stop_test none later clock ended in
        (after.last_result ≡ ended.last_result)
        × (completed_successfully after ≡ completed_successfully ended)
        × (after.completion_promise_set ≡ true)
  unfolding finish_run stop_test finalize_result_once finalize with_warning signal_completion
      completed_successfully
  stop_test-finish_run now later reason clock left t = ground arith
