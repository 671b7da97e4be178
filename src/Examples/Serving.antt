-- ===== src/Examples/Serving.antt =====
-- A server of the test runner that starts one process, which is ready at once.
use my_iperf.Prelude.{
  ℕ, ◌≡◌, ◌≢◌, refl, subst, Text, text, Bool, true, false, Option, none, some, List, [], ◌∷◌, arith,
}
use my_iperf.Prelude.Int.{pos}
use my_iperf.Result.{ok}
use my_iperf.Runner.{MessageType, default_test_config}
use my_iperf.Runner.Messages.{serialize_config_request, serialize_results_request, get_message_type}
use my_iperf.Runner.Codec.{config_request, results_request, deserialize_results_request-serialize}
use my_iperf.Runner.Processes.{System, without}
use my_iperf.Runner.Serving.{Reports, handle_client}
use my_iperf.Runner.Serving.Released.{AtMostOne, handle_client-children}
use my_iperf.Examples.Runners.{longs, good, good-IsReportable}

abbrev spawn : List Text → List ℕ → Option ℕ × List ℕ
spawn args w = (some 7, 7 ∷ w)

abbrev Spawned : List ℕ → Option ℕ × List ℕ → Type 0
Spawned w (none, v) = v ≡ w
Spawned w (some pid, v) = v ≡ pid ∷ w

abbrev Polled : ℕ → List ℕ → Bool × List ℕ → Type 0
Polled pid w (true, v) = v ≡ without pid w
Polled pid w (false, v) = v ≡ w

-- The world is the list of the children.
abbrev pub ready_system : System
ready_system = record {
  World = List ℕ;
  children = λ w. w;
  is_executable = λ path w. true;
  open_pipe = λ w. (some 3, w);
  spawn = spawn;
  read = λ fd w. (some (text "Transitioning to state: ACCEPTING\n"), w);
  read_to_end = λ fd w. (text "bye" ∷ [], w);
  poll = λ pid w. (false, w);
  wait = without;
  kill = λ pid w. w;
  close = λ fd w. w;
  expired = λ w. false;
  sleep = λ w. w;
  children-open_pipe = λ w. refl;
  children-spawn_some = λ args w v pid e. subst (Spawned w) e refl;
  children-spawn_none = λ args w v e. subst (Spawned w) e refl;
  children-read = λ fd w. refl;
  children-read_to_end = λ fd w. refl;
  children-poll_true = λ pid w v e. subst (Polled pid w) e refl;
  children-poll_false = λ pid w v e. subst (Polled pid w) e refl;
  children-wait = λ pid w. refl;
  children-kill = λ pid w. refl;
  children-close = λ fd w. refl;
  children-sleep = λ w. refl;
}

abbrev reports : Reports ready_system ℕ
reports = record {
  ipeftc_path = λ w. text "IPEFTC";
  parse_result_file = λ c role w. none;
  parse_output = λ output role port. ok good;
  send_all = λ before message. true;
}

requests : List Text
requests =
    serialize_config_request longs (config_request longs default_test_config)
    ∷ serialize_results_request longs (results_request longs (pos 5201) good)
    ∷ []

requests-AtMostOne : AtMostOne longs ready_system reports requests
unfolding requests AtMostOne
requests-AtMostOne = ((tt, λ e. tt), λ e. (other, tt))
  where
    other :
        get_message_type longs
          (serialize_results_request longs (results_request longs (pos 5201) good))
        ≢ ok MessageType.config_request
    other e =
        let right =
          (deserialize_results_request-serialize longs (pos 5201) good (omega arith)
            good-IsReportable).0 in
        cc

handle_client-children_example :
    (handle_client longs ready_system reports (4 ∷ []) [] requests).world ≡ 4 ∷ []
handle_client-children_example =
    handle_client-children longs ready_system reports (4 ∷ []) [] requests requests-AtMostOne
