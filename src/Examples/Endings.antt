-- ===== src/Examples/Endings.antt =====
-- How a run ends, and a control message on the wire.
use my_iperf.Prelude.{◌≡◌, refl, [], ◌∷◌, take, drop, text, arith, none, true, false}
use my_iperf.Stats.{zero_stats}
use my_iperf.Protocol.{MessageType, encode_header}
use my_iperf.Parser.{make_parser}
use my_iperf.Parser.Chunks.{receive_chunks}
use my_iperf.ControlPacket.{send_control_packet, control_packet, send_control_packet-received}
use my_iperf.RunResult.{State, Snapshot, build_current_result}
use my_iperf.Receiver.{make_receiver}
use my_iperf.Controller.{TestController, finish_run, stop_test, stop_test-finish_run}
use my_iperf.Examples.Inputs.{ticks, small_run, generator, quiet}

send_control_packet-received_example :
    receive_chunks (make_parser 100) (
      take 5 (send_control_packet MessageType.stats_ack (1 ∷ 2 ∷ []))
      ∷ drop 5 (send_control_packet MessageType.stats_ack (1 ∷ 2 ∷ []))
      ∷ [])
    ≡ (
      make_parser 100,
      record {
        packets = control_packet MessageType.stats_ack (1 ∷ 2 ∷ []) ∷ [];
        checksum_failures = 0;
      },
    )
unfolding send_control_packet encode_header
send_control_packet-received_example =
    send_control_packet-received 100 MessageType.stats_ack (1 ∷ 2 ∷ [])
      (take 5 (send_control_packet MessageType.stats_ack (1 ∷ 2 ∷ []))
        ∷ drop 5 (send_control_packet MessageType.stats_ack (1 ∷ 2 ∷ []))
        ∷ [])
      (omega arith) (omega arith) refl

abbrev in_state : State → Snapshot ticks.Real
in_state state = record {
  run_id = text "1";
  started_at = [];
  result_export_warning = [];
  state = state;
  config = small_run;
  client_stats_phase1 = zero_stats ticks;
  server_stats_phase1 = zero_stats ticks;
  client_stats_phase2 = zero_stats ticks;
  server_stats_phase2 = zero_stats ticks;
}

abbrev controller : TestController ticks.Real
controller = record {
  current = in_state State.running_test;
  stopped = false;
  completion_promise_set = false;
  cli_block_flag = false;
  result_finalized = false;
  test_started = true;
  last_result = build_current_result [] [] (in_state State.idle);
  generator = generator;
  receiver = make_receiver 0 quiet;
}

stop_test-finish_run_example :
    (stop_test
      (λ r. [])
      none
      (text "12:01")
      9
      (finish_run (λ r. []) (text "12:00") [] (in_state State.finished) controller)).last_result
    ≡ (finish_run (λ r. []) (text "12:00") [] (in_state State.finished) controller).last_result
stop_test-finish_run_example =
    (stop_test-finish_run (λ r. []) (text "12:00") (text "12:01") [] 9 (in_state State.finished)
      controller).0
