-- ===== src/Runner/Testing/Agreement.antt =====
-- A whole test of the test runner: TestRunner/ControlClient.cpp, `RunTest`, on one side, and
-- TestRunner/ControlServer.cpp, `HandleClient`, on the other.
use my_iperf.Prelude.{
  ◌≡◌, ap, ◌∙◌, Text, text, true, false, some, none, List, [], ◌∷◌, ◌++◌, is_empty, if◌then◌else◌,
}
use my_iperf.Result.{ok, ◌>>=◌}
use my_iperf.Json.{JsonLib}
use my_iperf.Stats.{Floats}
use my_iperf.StatsJson.{TextLib}
use my_iperf.Runner.{MessageType, TestConfig, TestResult}
use my_iperf.Runner.Messages.{
  LongLib, serialize_server_ready, serialize_results_response, get_message_type,
}
use my_iperf.Runner.Plain.{IsSendable, IsReportable}
use my_iperf.Runner.Codec.{
  server_ready, results_response, deserialize_server_ready-serialize,
  deserialize_results_response-serialize,
}
use my_iperf.Runner.Processes.{
  System, ProcessHandles, no_process, launch_ipeftc_client, capture_output,
}
use my_iperf.Runner.Serving.{Reports, is_sent, SessionRecord, serve}
use my_iperf.Runner.Testing.{
  Run, ask, analyzed, config_message, results_message, take_results, receive_results,
  request_results, run_config, client_report, run_client, take_ready, receive_ready, run_test,
}
use my_iperf.Runner.Testing.Answers.{
  Serves, server_answers, start, first_answer, second_answer, both_served,
}

-- The configuration that the client sends.
abbrev pub sent_config : TestConfig → TestConfig
sent_config config = record config {
  server_bind_ip = if is_empty config.server_bind_ip then text "0.0.0.0" else config.server_bind_ip;
}

module _ {f : Floats} {lib : JsonLib} {texts : TextLib f lib} (longs : LongLib texts)
    (server client : System) (reports : Reports server f.Real) (reports' : Reports client f.Real)
    (w : server.World) (history : List (SessionRecord f.Real)) (config : TestConfig) where
  abbrev pub answers : List Text → Text
  answers = server_answers longs server reports w history

  abbrev pub judged : TestResult f.Real → TestResult f.Real
  judged = analyzed longs client reports' answers config

  -- The two messages that the client sends.
  abbrev first_message : Text
  first_message = config_message longs client reports' answers config

  abbrev second_message : TestResult f.Real → Text
  second_message cr = results_message longs client reports' answers config (judged cr)

  -- A client that starts its process, gets the result `cr` from it and sends its two messages.
  pub record Runs (ip : Text) (cw : client.World) (cr : TestResult f.Real) : Type 0 where
    pub started : ProcessHandles
    pub started_world : client.World
    pub launches :
        launch_ipeftc_client client
          (reports'.ipeftc_path cw)
          (run_config longs client reports' answers config ip)
          no_process
          cw
        ≡ (true, started, started_world)
    pub reported :
        let (output, h, v) = capture_output client started started_world in
        client_report longs client reports' answers config ip output v ≡ ok cr
    pub config_sent : is_sent longs client reports' [] first_message ≡ true
    pub results_sent : is_sent longs client reports' (first_message ∷ []) (second_message cr) ≡ true

  ask_sent :
      (before : List Text) (message : Text)
      → is_sent longs client reports' before message ≡ true
      → ask longs client reports' answers config before message
        ≡ some (answers (before ++ message ∷ []))
  unfolding ask
  ask_sent before message h =
      ap (λ b. if b then some (answers (before ++ message ∷ [])) else none) h

  receive_ready_step :
      (ip : Text) (r : Run client f.Real) (reply : Text) {kind : MessageType}
      → is_empty reply ≡ false
      → get_message_type longs reply ≡ ok kind
      → receive_ready longs client reports' answers config ip r (some reply)
        ≡ take_ready longs client reports' answers config ip r reply kind
  unfolding receive_ready
  receive_ready_step ip r reply e k =
      let take = take_ready longs client reports' answers config ip r reply in
      ap
        (λ b.
          if b then ok (record r { succeeded = false }) else get_message_type longs reply >>= take)
        e
      ∙ ap (λ x. x >>= take) k

  receive_results_step :
      (r : Run client f.Real) (reply : Text) {kind : MessageType}
      → is_empty reply ≡ false
      → get_message_type longs reply ≡ ok kind
      → receive_results longs client reports' answers config r (some reply)
        ≡ take_results longs client reports' answers config r reply kind
  unfolding receive_results
  receive_results_step r reply e k =
      let take = take_results longs client reports' answers config r reply in
      ap
        (λ b.
          if b then ok (record r { succeeded = false }) else get_message_type longs reply >>= take)
        e
      ∙ ap (λ x. x >>= take) k

  module _ (ip : Text) (r : Run client f.Real) (cr sr : TestResult f.Real)
      (s : Serves longs server reports w history (sent_config config) sr) (run : Runs ip r.world cr)
      (sendable : IsSendable longs (sent_config config)) (mine : IsReportable longs (judged cr))
      (theirs : IsReportable longs sr) where
    -- The client after its process has ended.
    abbrev ended : Run client f.Real
    ended = record r { world = (capture_output client run.started run.started_world).2 }

    abbrev pub complete : Run client f.Real
    complete = record ended {
      succeeded = true;
      client_result = judged cr;
      server_result = judged sr;
    }

    results_requested : request_results longs client reports' answers config ended cr ≡ ok complete
    unfolding request_results config_message results_message take_results serialize_results_response
    results_requested =
        let reply = serialize_results_response longs (results_response longs sr) in
        let r' = record ended { client_result = judged cr } in
        let (kind, read) = deserialize_results_response-serialize longs sr theirs in
        ap (receive_results longs client reports' answers config r') (
          ask_sent (first_message ∷ []) (second_message cr) run.results_sent
          ∙ ap some (
              second_answer longs server reports w history (sent_config config) sr s sendable
                (judged cr) mine))
        ∙ (receive_results_step r' reply (longs.dump-with_member _ _ _) kind
            ∙ ap
                (λ x. x >>= λ response.
                  ok
                    (record r' { succeeded = true; server_result = judged response.server_result }))
                read)

    client_run :
        run_client longs client reports' answers config ip r (true, run.started, run.started_world)
        ≡ ok complete
    unfolding run_client
    client_run =
        ap (λ x. x >>= request_results longs client reports' answers config ended) run.reported
        ∙ results_requested

    run_test-complete : run_test longs client reports' answers config true ip r ≡ ok complete
    unfolding run_test config_message take_ready serialize_server_ready
    run_test-complete =
        let c = sent_config config in
        let reply = serialize_server_ready longs (server_ready longs c.port c.server_bind_ip) in
        let (kind, read) =
          deserialize_server_ready-serialize longs c.port c.server_bind_ip sendable.port_int
            sendable.server_bind_ip_utf8 in
        let launched =
          launch_ipeftc_client client (reports'.ipeftc_path r.world)
            (run_config longs client reports' answers config ip) no_process r.world in
        ap (receive_ready longs client reports' answers config ip r) (
          ask_sent [] first_message run.config_sent
          ∙ ap some (first_answer longs server reports w history c sr s sendable))
        ∙ (receive_ready_step ip r reply (longs.dump-with_member _ _ _) kind
            ∙ (ap
                  (λ x.
                    x >>= λ ready. run_client longs client reports' answers config ip r launched)
                  read
                ∙ (ap (run_client longs client reports' answers config ip r) run.launches
                    ∙ client_run)))

    -- When a server starts its process and gets the result `sr` from it, and a client starts its own and
    -- gets the result `cr`, the configuration that the client sends and both results fit JSON, and each of
    -- the four messages is within the limit of 65536 bytes and is taken by the socket, then `RunTest` succeeds with both results, each judged against the numbers of packets and bytes that the
    -- client expects; and from the same two messages the server adds to its history the client's
    -- judged result beside its own, unjudged one.
    pub run_test-agrees :
        (run_test longs client reports' answers config true ip r ≡ ok complete)
        × ((serve longs server reports (start longs server reports w history) (
              config_message longs client reports' answers config
              ∷ results_message longs client reports' answers config (judged cr)
              ∷ [])).session_history
            ≡ history ++ record { client = judged cr; server = sr } ∷ [])
    unfolding config_message results_message
    run_test-agrees = (
      run_test-complete,
      ap (λ x. x.session_history)
          (both_served longs server reports w history (sent_config config) sr s sendable (judged cr)
            mine),
    )
