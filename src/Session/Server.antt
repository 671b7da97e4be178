-- ===== src/Session/Server.antt =====
-- MyIperf/src/myiperf/ServerTestSession.cpp: what the server does.
use my_iperf.Prelude.{Text, text, []}
use my_iperf.Result.{Result, ok, ◌>>=◌}
use my_iperf.Json.{JsonLib}
use my_iperf.Protocol.{MessageType}
use my_iperf.Stats.{Floats}
use my_iperf.StatsJson.{TextLib, stats_to_payload, parse_stats_payload, parse_json_payload}
use my_iperf.ReceiveStats.{reset, snapshot}
use my_iperf.Config.{from_json, set_mode, TestMode}
use my_iperf.Generator.{reset_stats, get_stats}
use my_iperf.RunResult.{State}
use my_iperf.Session.{
  Context, Surroundings, Script, finished, act, require, generate, send, wait, transition_to,
  start_receiver, notify_phase_complete,
}
use my_iperf.Session.Client.{default_timeout, wait_for}

module _ {f : Floats} {lib : JsonLib} (texts : TextLib f lib) (around : Surroundings f) where
  -- The configuration that the client sent, in the server's mode.
  unfoldable pub receive_config : Text → Context f → Result (Context f)
  receive_config payload c = do
    json ← parse_json_payload texts payload
    received_config ← from_json lib json
    ok (record c { config = set_mode TestMode.server received_config })

  unfoldable pub accept_and_receive_config : Script f → Script f
  unfolding receive_config
  accept_and_receive_config next = require around.initialized (text "Error: Server init failed") (
      transition_to State.accepting (
        require around.connected (text "Error: Accept failed") (
          start_receiver around (
            transition_to State.waiting_for_config (
              wait MessageType.config_handshake (λ c. default_timeout) receive_config
                (send MessageType.config_ack (λ c. []) next))))))

  unfoldable pub reset_receiver : Context f → Context f
  reset_receiver c = record c { receiver = around.counted_late (reset around.reset_time) }

  unfoldable pub read_client_stats1 : Text → Context f → Result (Context f)
  read_client_stats1 payload c = do
    stats ← parse_stats_payload texts payload
    ok (record c { client_stats_phase1 = stats; server_stats_phase1 = snapshot f c.receiver })

  unfoldable pub read_client_stats2 : Text → Context f → Result (Context f)
  read_client_stats2 payload c = do
    stats ← parse_stats_payload texts payload
    ok (record c { client_stats_phase2 = stats; server_stats_phase2 = get_stats f c.generator })

  unfoldable pub run_client_to_server_phase : Script f → Script f
  unfolding reset_receiver read_client_stats1
  run_client_to_server_phase next = transition_to State.running_test (
      act reset_receiver (
        wait_for texts around MessageType.test_fin (
          transition_to State.finishing (
            send MessageType.test_fin (λ c. [])
              (wait MessageType.stats_exchange (λ c. default_timeout) read_client_stats1
                (notify_phase_complete 1 (
                  transition_to State.waiting_for_client_ready (
                    send MessageType.stats_ack (λ c. stats_to_payload texts c.server_stats_phase1)
                      next))))))))

  unfoldable pub run_server_to_client_phase : Script f → Script f
  unfolding read_client_stats2
  run_server_to_client_phase next = wait_for texts around MessageType.client_ready (
      transition_to State.running_server_test (
        act (λ c. record c { generator = reset_stats around.send_start c.generator })
          (generate (
            transition_to State.server_test_finishing (
              send MessageType.test_fin (λ c. [])
                (wait MessageType.stats_exchange (λ c. default_timeout) read_client_stats2
                  (notify_phase_complete 2 (
                    transition_to State.waiting_for_shutdown_ack (
                      send MessageType.stats_ack (λ c. stats_to_payload texts c.server_stats_phase2)
                        (wait_for texts around MessageType.shutdown_ack next))))))))))

  unfoldable pub server_session : Script f
  unfolding accept_and_receive_config run_client_to_server_phase run_server_to_client_phase
  server_session = accept_and_receive_config (
      run_client_to_server_phase
        (run_server_to_client_phase (transition_to State.finished finished)))
