-- ===== src/Runner/Testing/Answers.antt =====
-- TestRunner/ControlServer.cpp, `HandleClient`: the answers to the two messages of a test that
-- TestRunner/ControlClient.cpp, `RunTest`, sends.
use my_iperf.Prelude.{
  ◌-◌, ◌≡◌, ap, ◌∙◌, Text, text, true, false, some, List, [], ◌∷◌, ◌++◌, length, get_or, is_empty,
  if◌then◌else◌,
}
use my_iperf.Json.{JsonLib, IsInt}
use my_iperf.Stats.{Floats}
use my_iperf.StatsJson.{TextLib}
use my_iperf.Runner.{TestConfig, TestResult}
use my_iperf.Runner.Messages.{
  LongLib, serialize_config_request, serialize_server_ready, serialize_results_request,
  serialize_results_response, get_message_type,
}
use my_iperf.Runner.Plain.{IsSendable, IsReportable}
use my_iperf.Runner.Codec.{
  config_request, server_ready, results_request, results_response,
  deserialize_config_request-serialize, deserialize_results_request-serialize,
}
use my_iperf.Runner.Processes.{
  System, ProcessHandles, no_process, launch_ipeftc_server, wait_for_server_ready, capture_output,
}
use my_iperf.Runner.Serving.{
  Reports, SessionRecord, Outcome, goes_on, leaves, State, send, answer_ready, answer_launch,
  handle_config, answer_results, answer_ended, end_process, handle_results, handle_type, then_on,
  is_sent, serve, accepted, server_start_timeout_ms,
}

module _ {f : Floats} {lib : JsonLib} {texts : TextLib f lib} (longs : LongLib texts)
    (server : System) (reports : Reports server f.Real) (w : server.World)
    (history : List (SessionRecord f.Real)) where
  -- The answers of a server that handles the client: to each message, the reply with its number.
  unfoldable pub server_answers : List Text → Text
  server_answers messages =
      get_or (serve longs server reports (accepted longs server reports w history) messages).sent
        (length messages - 1) []

  abbrev pub ready_reply : TestConfig → Text
  ready_reply c = serialize_server_ready longs (server_ready longs c.port c.server_bind_ip)

  abbrev pub results_reply : TestResult f.Real → Text
  results_reply result = serialize_results_response longs (results_response longs result)

  -- A server that starts its process, gets a result from it and sends its two replies.
  pub record Serves (c : TestConfig) (result : TestResult f.Real) : Type 0 where
    pub started : ProcessHandles
    pub started_world : server.World
    pub launches :
        launch_ipeftc_server server (reports.ipeftc_path w) c no_process w
        ≡ (true, started, started_world)
    pub ready : ProcessHandles
    pub ready_world : server.World
    pub becomes_ready :
        wait_for_server_ready server started server_start_timeout_ms started_world
        ≡ (true, ready, ready_world)
    pub reported :
        reports.parse_result_file c (text "Server") (capture_output server ready ready_world).2
        ≡ some result
    pub ready_sent : is_sent longs server reports [] (ready_reply c) ≡ true
    pub results_sent :
        is_sent longs server reports (ready_reply c ∷ []) (results_reply result) ≡ true

  abbrev pub request : TestConfig → Text
  request c = serialize_config_request longs (config_request longs c)

  abbrev pub start : State longs server reports
  start = accepted longs server reports w history

  module _ (c : TestConfig) (result : TestResult f.Real) (s : Serves c result) where
    -- The server after the request for the test.
    abbrev pub tested : State longs server reports
    tested = record start {
      world = s.ready_world;
      ipeftc_process = s.ready;
      ipeftc_running = true;
      current_test_port = c.port;
      current_config = c;
      sent = serialize_server_ready longs (server_ready longs c.port c.server_bind_ip) ∷ [];
    }

    config_handled :
        IsSendable longs c
        → handle_type longs server reports start (request c) (get_message_type longs (request c))
          ≡ goes_on tested
    unfolding handle_type handle_config answer_launch answer_ready send accepted
    config_handled sendable =
        let (kind, read) = deserialize_config_request-serialize longs c sendable in
        let asked = record start { current_config = c } in
        ap (handle_type longs server reports start (request c)) kind
        ∙ (ap (handle_config longs server reports start) read
            ∙ (ap (answer_launch longs server reports c asked) s.launches
                ∙ (ap
                      (answer_ready longs server reports c
                        (record asked { ipeftc_running = true; current_test_port = c.port }))
                      s.becomes_ready
                    ∙ ap
                        (λ b.
                          goes_on (record tested { sent = if b then ready_reply c ∷ [] else [] }))
                        s.ready_sent)))

    -- The server after the request for the results, which has the client's own result.
    abbrev pub answered : TestResult f.Real → State longs server reports
    answered r =
        let (output, h, v) = capture_output server s.ready s.ready_world in
        record tested {
          world = v;
          ipeftc_process = h;
          ipeftc_running = false;
          sent =
              tested.sent ++ serialize_results_response longs (results_response longs result) ∷ [];
          session_history = history ++ record { client = r; server = result } ∷ [];
        }

    abbrev pub results : TestResult f.Real → Text
    results r = serialize_results_request longs (results_request longs c.port r)

    results_handled :
        (r : TestResult f.Real)
        → IsInt c.port
        → IsReportable longs r
        → handle_type longs server reports tested (results r) (get_message_type longs (results r))
          ≡ leaves (answered r)
    unfolding handle_type handle_results end_process answer_ended answer_results send accepted
    results_handled r n reportable =
        let (kind, read) = deserialize_results_request-serialize longs c.port r n reportable in
        let (output, ended) = end_process longs server reports tested in
        ap (handle_type longs server reports tested (results r)) kind
        ∙ (ap (handle_results longs server reports tested) read
            ∙ (ap (answer_ended longs server reports (results_request longs c.port r) ended output)
                  s.reported
                ∙ ap
                    (λ b. leaves (record (answered r) {
                      sent =
                          if b
                          then ready_reply c ∷ results_reply result ∷ []
                          else ready_reply c ∷ [];
                    }))
                    s.results_sent))

  serve_step :
      (s : State longs server reports) (m : Text) (messages : List Text)
      {o : Outcome (State longs server reports)}
      → is_empty m ≡ false
      → handle_type longs server reports s m (get_message_type longs m) ≡ o
      → serve longs server reports s (m ∷ messages)
        ≡ then_on longs server reports (λ s'. serve longs server reports s' messages) o
  unfolding serve
  serve_step s m messages e h =
      let further = then_on longs server reports (λ s'. serve longs server reports s' messages) in
      ap
        (λ b.
          if b
          then s
          else further (handle_type longs server reports s m (get_message_type longs m)))
        e
      ∙ ap further h

  module _ (c : TestConfig) (result : TestResult f.Real) (s : Serves c result)
      (sendable : IsSendable longs c) where
    request_full : is_empty (request c) ≡ false
    unfolding serialize_config_request
    request_full = longs.dump-with_member _ _ _

    pub first_answer : server_answers (request c ∷ []) ≡ ready_reply c
    unfolding server_answers then_on serve
    first_answer =
        ap (λ (x : State longs server reports). get_or x.sent 0 [])
          (serve_step start (request c) [] request_full (config_handled c result s sendable))

    pub both_served :
        (r : TestResult f.Real)
        → IsReportable longs r
        → serve longs server reports start (request c ∷ results c result s r ∷ [])
          ≡ answered c result s r
    unfolding then_on serialize_results_request
    both_served r reportable =
        serve_step start (request c) (results c result s r ∷ []) request_full
          (config_handled c result s sendable)
        ∙ serve_step (tested c result s) (results c result s r) [] (longs.dump-with_member _ _ _)
            (results_handled c result s r sendable.port_int reportable)

    pub second_answer :
        (r : TestResult f.Real)
        → IsReportable longs r
        → server_answers (request c ∷ results c result s r ∷ []) ≡ results_reply result
    unfolding server_answers accepted
    second_answer r reportable =
        ap (λ (x : State longs server reports). get_or x.sent 1 []) (both_served r reportable)
