-- ===== src/Runner/Testing.antt =====
-- TestRunner/ControlClient.cpp, `RunTest`: what a client does for one test. `answers` says what
-- `ReceiveMessage` returns behind the last of the messages that the client has sent. The call of `beforeLaunch`, the pause and the log lines are left
-- out, and so is the overflow of the expected number of bytes.
pub mod Answers
pub mod Agreement
use my_iperf.Prelude.{
  ◌≡◌, Text, text, Bool, true, false, Option, none, some, List, [], ◌∷◌, ◌++◌, is_empty,
  if◌then◌else◌,
}
use my_iperf.Prelude.Int.{ℤ, ◌*ℤ◌}
use my_iperf.Result.{Result, ok, throw, ◌>>=◌}
use my_iperf.Json.{JsonLib}
use my_iperf.Stats.{Floats}
use my_iperf.StatsJson.{TextLib}
use my_iperf.Runner.{
  MessageType, TestConfig, TestResult, analyze_test_result, make_message, ErrorMessage,
  ResultsResponseMessage,
}
use my_iperf.Runner.Messages.{
  LongLib, serialize_config_request, serialize_results_request, get_message_type, deserialize_error,
  deserialize_server_ready, deserialize_results_response,
}
use my_iperf.Runner.Processes.{
  System, ProcessHandles, no_process, launch_ipeftc_client, capture_output,
}
use my_iperf.Runner.Serving.{Reports, is_sent}

-- What `RunTest` returns, with its two results and the world that it leaves.
pub record Run (system : System) (Real : Type 0) : Type 0 where
  pub succeeded : Bool
  pub client_result : TestResult Real
  pub server_result : TestResult Real
  pub world : system.World

module _ {f : Floats} {lib : JsonLib} {texts : TextLib f lib} (longs : LongLib texts)
    (system : System) (reports : Reports system f.Real) (answers : List Text → Text)
    (config : TestConfig) where
  -- The number of bytes that the test is to transfer.
  unfoldable pub expected_bytes : ℤ
  unfolding ◌*ℤ◌
  expected_bytes = config.packet_size *ℤ config.num_packets

  unfoldable pub analyzed : TestResult f.Real → TestResult f.Real
  unfolding analyze_test_result expected_bytes
  analyzed r = analyze_test_result r config.num_packets expected_bytes

  unfoldable pub config_message : Text
  unfolding serialize_config_request
  config_message = serialize_config_request longs (record {
    base = make_message MessageType.config_request;
    config = record config {
      server_bind_ip =
          if is_empty config.server_bind_ip then text "0.0.0.0" else config.server_bind_ip;
    };
  })

  unfoldable pub results_message : TestResult f.Real → Text
  unfolding serialize_results_request
  results_message r = serialize_results_request longs (record {
    base = make_message MessageType.results_request;
    port = config.port;
    client_result = r;
  })

  -- `return false;`
  abbrev pub failed : Run system f.Real → Result (Run system f.Real)
  failed r = ok (record r { succeeded = false })

  -- The type of the answer to RESULTS_REQUEST.
  unfoldable pub take_results : Run system f.Real → Text → MessageType → Result (Run system f.Real)
  unfolding analyzed
  take_results r reply MessageType.results_response = do
    response ← deserialize_results_response longs reply
    ok (record r { succeeded = true; server_result = analyzed response.server_result })
  take_results r reply _ = failed r

  -- Step 7, with the answer to RESULTS_REQUEST.
  unfoldable pub receive_results : Run system f.Real → Option Text → Result (Run system f.Real)
  unfolding take_results
  receive_results r none = failed r
  receive_results r (some reply) =
      let next = get_message_type longs reply >>= take_results r reply in
      if is_empty reply then failed r else next

  -- `SendMessage` of a message behind others, and `ReceiveMessage`; `none` if the message is not sent.
  unfoldable pub ask : List Text → Text → Option Text
  ask before message =
      if is_sent longs system reports before message
      then some (answers (before ++ message ∷ []))
      else none

  -- Steps 5 and 6, with the client's result.
  unfoldable pub request_results :
      Run system f.Real → TestResult f.Real → Result (Run system f.Real)
  unfolding analyzed receive_results config_message results_message ask
  request_results r result =
      let result' = analyzed result in
      receive_results (record r { client_result = result' })
        (ask (config_message ∷ []) (results_message result'))

  unfoldable pub run_config : Text → TestConfig
  run_config server_ip = record config { target_ip = server_ip }

  -- Step 5: the result file of the client, or else its output.
  unfoldable pub client_report : Text → Text → system.World → Result (TestResult f.Real)
  unfolding run_config
  client_report server_ip output w =
      elim (reports.parse_result_file (run_config server_ip) (text "Client") w) [
        | none ↦ reports.parse_output output (text "Client") config.port
        | some result ↦ ok result
      ]

  -- Steps 3 and 4.
  unfoldable pub run_client :
      Text → Run system f.Real → Bool × ProcessHandles × system.World → Result (Run system f.Real)
  unfolding client_report request_results
  run_client server_ip r (false, h, w) = failed (record r { world = w })
  run_client server_ip r (true, h, w) =
      let (output, h', v) = capture_output system h w in
      client_report server_ip output v >>= request_results (record r { world = v })

  -- The type of the answer to CONFIG_REQUEST.
  unfoldable pub take_ready :
      Text → Run system f.Real → Text → MessageType → Result (Run system f.Real)
  unfolding run_client run_config no_process
  take_ready server_ip r reply MessageType.error_message = do
    e ← deserialize_error longs reply
    failed r
  take_ready server_ip r reply MessageType.server_ready = do
    ready ← deserialize_server_ready longs reply
    run_client server_ip r (
        launch_ipeftc_client system (reports.ipeftc_path r.world) (run_config server_ip) no_process
          r.world)
  take_ready server_ip r reply _ = failed r

  -- Step 2, with the answer to CONFIG_REQUEST.
  unfoldable pub receive_ready : Text → Run system f.Real → Option Text → Result (Run system f.Real)
  unfolding take_ready
  receive_ready server_ip r none = failed r
  receive_ready server_ip r (some reply) =
      let next = get_message_type longs reply >>= take_ready server_ip r reply in
      if is_empty reply then failed r else next

  -- `r` holds the results before the call; `connected` is what `Connect` returned.
  unfoldable pub run_test : Bool → Text → Run system f.Real → Result (Run system f.Real)
  unfolding receive_ready config_message ask
  run_test connected server_ip r =
      if connected then receive_ready server_ip r (ask [] config_message) else failed r
