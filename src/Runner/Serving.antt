-- ===== src/Runner/Serving.antt =====
-- TestRunner/ControlServer.cpp, `HandleClient`: what a server does for one client. The messages are what
-- `ReceiveMessage` returns, one after the other; the connection is closed behind the last. The tables
-- that are printed are left out. What ProcessManager reads from the result file or the output of the
-- process, and whether the socket takes a message, are parameters.
pub mod Released
use my_iperf.Prelude.{
  ℕ, ◌≡◌, Text, text, Bool, true, false, Option, none, some, List, [], ◌∷◌, ◌++◌, is_empty, length,
  ltb, if◌then◌else◌,
}
use my_iperf.Prelude.Int.{ℤ, pos}
use my_iperf.Result.{Result, ok, throw}
use my_iperf.Json.{JsonLib}
use my_iperf.Stats.{Floats}
use my_iperf.StatsJson.{TextLib}
use my_iperf.Runner.{
  max_message_size, MessageType, TestConfig, default_test_config, TestResult, default_test_result,
  make_message, ConfigRequestMessage, ServerReadyMessage, ResultsRequestMessage, ErrorMessage,
}
use my_iperf.Runner.Messages.{
  LongLib, serialize_server_ready, serialize_results_response, serialize_error, get_message_type,
  deserialize_config_request, deserialize_results_request,
}
use my_iperf.Runner.Processes.{
  System, ProcessHandles, no_process, launch_ipeftc_server, terminate_process,
  wait_for_server_ready, capture_output,
}

-- What a side learns of a run: `GetIPEFTCPath`, `ParseResultFile` and `ParseOutput`, which may throw;
-- and whether `SendAll` gets a message onto the connection behind those that were sent before.
pub record Reports (system : System) (Real : Type 0) : Type 0 where
  pub ipeftc_path : system.World → Text
  pub parse_result_file : TestConfig → Text → system.World → Option (TestResult Real)
  pub parse_output : Text → Text → ℤ → Result (TestResult Real)
  pub send_all : List Text → Text → Bool

pub record SessionRecord (Real : Type 0) : Type 0 where
  pub client : TestResult Real
  pub server : TestResult Real

abbrev pub server_start_timeout_ms : ℕ
server_start_timeout_ms = 20000

-- The local variables of `HandleClient`, what it has sent, the history, and `running` of the server.
pub record Serving (system : System) (Real : Type 0) : Type 0 where
  pub world : system.World
  pub ipeftc_process : ProcessHandles
  pub ipeftc_running : Bool
  pub current_test_port : ℤ
  pub current_config : TestConfig
  pub sent : List Text
  pub session_history : List (SessionRecord Real)
  pub running : Bool

-- How the handling of a message ends: the loop goes on, or it is left by `break` or an exception.
pub data Outcome (S : Type 0) : Type 0 where
  goes_on : S → Outcome S
  leaves : S → Outcome S

module _ {f : Floats} {lib : JsonLib} {texts : TextLib f lib} (longs : LongLib texts)
    (system : System) (reports : Reports system f.Real) where
  abbrev pub State : Type 0
  State = Serving system f.Real

  -- What `SendMessage` returns.
  unfoldable pub is_sent : List Text → Text → Bool
  is_sent before message =
      if ltb max_message_size (length message) then false else reports.send_all before message

  -- No caller looks at what `SendMessage` returns.
  unfoldable pub send : Text → State → State
  unfolding is_sent
  send message s = record s {
    sent = if is_sent s.sent message then s.sent ++ message ∷ [] else s.sent;
  }

  abbrev pub error_reply : Text → Text
  error_reply what =
      serialize_error longs (record { base = make_message MessageType.error_message; error = what })

  -- After a launch and the wait for the server.
  unfoldable pub answer_ready :
      TestConfig → State → Bool × ProcessHandles × system.World → Outcome State
  unfolding send
  answer_ready c s (true, h, w) = goes_on (
      send
        (serialize_server_ready longs (record {
          base = make_message MessageType.server_ready;
          port = c.port;
          server_ip = c.server_bind_ip;
        }))
        (record s { ipeftc_process = h; world = w }))
  answer_ready c s (false, h, w) =
      let (h', v) = terminate_process system h w in
      goes_on (record (send (error_reply (text "IPEFTC server failed to become ready")) s) {
        ipeftc_process = h';
        world = v;
        ipeftc_running = false;
      })

  unfoldable pub answer_launch :
      TestConfig → State → Bool × ProcessHandles × system.World → Outcome State
  unfolding answer_ready send
  answer_launch c s (true, h, w) =
      answer_ready c (record s { ipeftc_running = true; current_test_port = c.port })
        (wait_for_server_ready system h server_start_timeout_ms w)
  answer_launch c s (false, h, w) = goes_on (
      send (error_reply (text "Failed to launch IPEFTC server"))
        (record s { ipeftc_process = h; world = w }))

  unfoldable pub handle_config : State → Result ConfigRequestMessage → Outcome State
  unfolding answer_launch
  handle_config s (throw what) = leaves s
  handle_config s (ok req) =
      let c = req.config in
      answer_launch c (record s { current_config = c })
        (launch_ipeftc_server system (reports.ipeftc_path s.world) c s.ipeftc_process s.world)

  -- The answer to RESULTS_REQUEST, its record in the history, and `break`.
  unfoldable pub answer_results :
      ResultsRequestMessage f.Real → State → TestResult f.Real → Outcome State
  unfolding send
  answer_results req s result =
      leaves
        (record (send
          (serialize_results_response longs
            (record { base = make_message MessageType.results_response; server_result = result }))
          s) {
            session_history =
                s.session_history ++ record { client = req.client_result; server = result } ∷ [];
          })

  unfoldable pub answer_parsed :
      ResultsRequestMessage f.Real → State → Result (TestResult f.Real) → Outcome State
  unfolding answer_results
  answer_parsed req s (throw what) = leaves s
  answer_parsed req s (ok result) = answer_results req s result

  -- The result of a process that was running, from its file or else from its output.
  unfoldable pub answer_ended :
      ResultsRequestMessage f.Real → State → Text → Option (TestResult f.Real) → Outcome State
  unfolding answer_results answer_parsed
  answer_ended req s output (some result) = answer_results req s result
  answer_ended req s output none =
      answer_parsed req s (reports.parse_output output (text "Server") s.current_test_port)

  unfoldable pub not_running : State → TestResult f.Real
  not_running s = record (default_test_result f.zero_real) {
    role = text "Server";
    port = s.current_test_port;
    failure_reason = text "IPEFTC server was not running";
  }

  unfoldable pub end_process : State → Text × State
  end_process s =
      let (output, h, w) = capture_output system s.ipeftc_process s.world in
      (output, record s { ipeftc_process = h; world = w; ipeftc_running = false })

  unfoldable pub handle_results : State → Result (ResultsRequestMessage f.Real) → Outcome State
  unfolding end_process answer_ended answer_results not_running
  handle_results s (throw what) = leaves s
  handle_results s (ok req) =
      let (output, s') = end_process s in
      if s.ipeftc_running
      then answer_ended req s' output
          (reports.parse_result_file s'.current_config (text "Server") s'.world)
      else answer_results req s (not_running s)

  -- A message that was received and is not empty.
  unfoldable pub handle_type : State → Text → Result MessageType → Outcome State
  unfolding handle_config handle_results
  handle_type s message (throw what) = leaves s
  handle_type s message (ok MessageType.config_request) =
      handle_config s (deserialize_config_request longs message)
  handle_type s message (ok MessageType.results_request) =
      handle_results s (deserialize_results_request longs message)
  handle_type s message (ok MessageType.server_shutdown) = leaves (record s { running = false })
  handle_type s message (ok _) = goes_on s

  unfoldable pub then_on : (State → State) → Outcome State → State
  then_on further (goes_on s) = further s
  then_on further (leaves s) = s

  -- `while (true)`.
  unfoldable pub serve : State → List Text → State
  unfolding handle_type then_on
  serve s [] = s
  serve s (message ∷ messages) =
      let next =
        then_on (λ s'. serve s' messages)
          (handle_type s message (get_message_type longs message)) in
      if is_empty message then s else next

  -- The cleanup behind the loop.
  unfoldable pub clean_up : State → State
  clean_up s =
      let (h, w) = terminate_process system s.ipeftc_process s.world in
      if s.ipeftc_running then record s { ipeftc_process = h; world = w } else s

  -- The variables at the start.
  unfoldable pub accepted : system.World → List (SessionRecord f.Real) → State
  unfolding no_process
  accepted w history = record {
    world = w;
    ipeftc_process = no_process;
    ipeftc_running = false;
    current_test_port = pos 0;
    current_config = default_test_config;
    sent = [];
    session_history = history;
    running = true;
  }

  unfoldable pub handle_client : system.World → List (SessionRecord f.Real) → List Text → State
  unfolding accepted serve clean_up
  handle_client w history messages = clean_up (serve (accepted w history) messages)
