-- ===== src/Session/Client.antt =====
-- MyIperf/src/myiperf/ClientTestSession.cpp: what the client does.
use my_iperf.Prelude.{Text, text, []}
use my_iperf.Prelude.Int.{ℤ, pos}
use my_iperf.Result.{Result, ok, ◌>>=◌}
use my_iperf.Json.{JsonLib}
use my_iperf.Protocol.{MessageType}
use my_iperf.Stats.{Floats}
use my_iperf.StatsJson.{TextLib, stats_to_payload, parse_stats_payload}
use my_iperf.ReceiveStats.{reset, snapshot}
use my_iperf.Config.{to_json}
use my_iperf.Generator.{save_last_stats, get_stats}
use my_iperf.RunResult.{State}
use my_iperf.Session.{
  Context, Surroundings, Script, finished, act, require, generate, send, wait, transition_to,
  start_receiver, notify_phase_complete,
}

-- The default timeout of `ControlChannel::waitFor`, in milliseconds.
abbrev pub default_timeout : ℤ
default_timeout = pos 5000

module _ {f : Floats} {lib : JsonLib} (texts : TextLib f lib) (around : Surroundings f) where
  abbrev pub wait_for : MessageType → Script f → Script f
  wait_for type = wait type (λ c. default_timeout) (λ payload c. ok c)

  unfoldable pub connect_and_handshake : Script f → Script f
  connect_and_handshake next = transition_to State.connecting (
      require around.initialized (text "Error: Client init failed") (
        require around.connected (text "Error: Failed to connect to server") (
          start_receiver around (
            transition_to State.sending_config (
              send MessageType.config_handshake (λ c. texts.dump (to_json lib c.config))
                (transition_to State.waiting_for_ack (
                  wait MessageType.config_ack (λ c. c.config.handshake_timeout_ms)
                    (λ payload c. ok c) next)))))))

  unfoldable pub save_sent_stats : Context f → Context f
  save_sent_stats c = record c { generator = save_last_stats (get_stats f c.generator) c.generator }

  unfoldable pub read_server_stats1 : Text → Context f → Result (Context f)
  read_server_stats1 payload c = do
    stats ← parse_stats_payload texts payload
    ok (record c { server_stats_phase1 = stats; client_stats_phase1 = c.generator.last_stats })

  unfoldable pub read_server_stats2 : Text → Context f → Result (Context f)
  read_server_stats2 payload c = do
    stats ← parse_stats_payload texts payload
    ok (record c { server_stats_phase2 = stats })

  unfoldable pub run_client_to_server_phase : Script f → Script f
  unfolding save_sent_stats read_server_stats1
  run_client_to_server_phase next = transition_to State.running_test (
      generate (
        transition_to State.finishing (
          send MessageType.test_fin (λ c. [])
            (transition_to State.exchanging_stats (
              wait_for MessageType.test_fin (
                act save_sent_stats (
                  send MessageType.stats_exchange
                    (λ c. stats_to_payload texts (get_stats f c.generator))
                    (wait MessageType.stats_ack (λ c. default_timeout) read_server_stats1
                      (notify_phase_complete 1 next)))))))))

  unfoldable pub reset_receiver : Context f → Context f
  reset_receiver c = record c { receiver = around.counted_late (reset around.reset_time) }

  unfoldable pub run_server_to_client_phase : Script f → Script f
  unfolding read_server_stats2 reset_receiver
  run_server_to_client_phase next =
      send MessageType.client_ready (λ c. [])
        (transition_to State.waiting_for_server_fin (
          act reset_receiver (
            wait_for MessageType.test_fin (
              transition_to State.exchanging_server_stats (
                act (λ c. record c { client_stats_phase2 = snapshot f c.receiver })
                  (send MessageType.stats_exchange
                    (λ c. stats_to_payload texts c.client_stats_phase2)
                    (wait MessageType.stats_ack (λ c. default_timeout) read_server_stats2
                      (notify_phase_complete 2 next))))))))

  unfoldable pub client_session : Script f
  unfolding connect_and_handshake run_client_to_server_phase run_server_to_client_phase
  client_session = connect_and_handshake (
      run_client_to_server_phase (
        run_server_to_client_phase
          (send MessageType.shutdown_ack (λ c. []) (transition_to State.finished finished))))
