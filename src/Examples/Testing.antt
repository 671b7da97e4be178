-- ===== src/Examples/Testing.antt =====
-- One whole test of the test runner, with a client and a server that start one process each.
use my_iperf.Prelude.{ℕ, ◌≡◌, refl, text, true, false, some, [], ◌∷◌, arith}
use my_iperf.Prelude.Int.{◌*ℤ◌}
use my_iperf.Result.{ok}
use my_iperf.Runner.{
  message_type_to_string, default_test_config, default_test_result, analyze_test_result,
}
use my_iperf.Runner.Plain.{IsSendable, IsReportable}
use my_iperf.Runner.Processes.{
  no_process, launch_ipeftc_server, launch_ipeftc_client, wait_for_server_ready, capture_output,
}
use my_iperf.Runner.Serving.{Reports, serve, is_sent}
use my_iperf.Runner.Messages.{serialize_server_ready, serialize_results_response}
use my_iperf.Runner.Testing.{
  Run, expected_bytes, analyzed, config_message, results_message, run_config, client_report,
  run_test,
}
use my_iperf.Runner.Testing.Answers.{Serves, start}
use my_iperf.Runner.Testing.Agreement.{
  answers, sent_config, Runs, judged, complete, run_test-agrees,
}
use my_iperf.Examples.Runners.{longs, good, good-IsReportable}
use my_iperf.Examples.Serving.{ready_system}

abbrev reports : Reports ready_system ℕ
reports = record {
  ipeftc_path = λ w. text "IPEFTC";
  parse_result_file = λ c role w. some good;
  parse_output = λ output role port. ok (default_test_result 0);
  send_all = λ before message. true;
}

sends : IsSendable longs (sent_config default_test_config)
unfolding default_test_config
sends = record {
  mode_utf8 = tt;
  config_path_utf8 = tt;
  target_ip_utf8 = tt;
  server_bind_ip_utf8 = tt;
  port_int = omega arith;
  packet_size_int = omega arith;
  num_packets_long = omega arith;
  send_interval_int = omega arith;
  protocol_utf8 = tt;
  run_id_utf8 = tt;
  result_dir_utf8 = tt;
}

serving : Serves longs ready_system reports [] [] (sent_config default_test_config) good
unfolding launch_ipeftc_server wait_for_server_ready default_test_config no_process is_sent
    serialize_server_ready message_type_to_string serialize_results_response
serving = record {
  started = record { pid = some 7; pipe_read_fd = some 3; startup_output = [] };
  started_world = 7 ∷ [];
  launches = refl;
  ready = record {
    pid = some 7;
    pipe_read_fd = some 3;
    startup_output = text "Transitioning to state: ACCEPTING\n";
  };
  ready_world = 7 ∷ [];
  becomes_ready = refl;
  reported = refl;
  ready_sent = refl;
  results_sent = refl;
}

running :
    Runs longs ready_system ready_system reports reports [] [] default_test_config
      (text "10.0.0.1")
      []
      good
unfolding launch_ipeftc_client run_config no_process client_report capture_output is_sent
    config_message default_test_config message_type_to_string results_message analyzed
running = record {
  started = record { pid = some 7; pipe_read_fd = some 3; startup_output = [] };
  started_world = 7 ∷ [];
  launches = refl;
  reported = refl;
  config_sent = refl;
  results_sent = refl;
}

judged_reportable :
    IsReportable longs
      (judged longs ready_system ready_system reports reports [] [] default_test_config good)
unfolding analyzed analyze_test_result expected_bytes default_test_config ◌*ℤ◌
judged_reportable = record {
  role_utf8 = tt;
  port_int = omega arith;
  duration_finite = tt;
  throughput_finite = tt;
  host_total_bytes_long = omega arith;
  total_bytes_long = omega arith;
  total_packets_long = omega arith;
  expected_bytes_long = omega arith;
  expected_packets_long = omega arith;
  sequence_errors_long = omega arith;
  checksum_errors_long = omega arith;
  content_mismatches_long = omega arith;
  failure_reason_utf8 = tt;
}

-- Before the test.
abbrev unknown : Run ready_system ℕ
unknown = record {
  succeeded = false;
  client_result = default_test_result 0;
  server_result = default_test_result 0;
  world = [];
}

run_test-agrees_example :
    (run_test longs ready_system reports
        (answers longs ready_system ready_system reports reports [] [] default_test_config)
        default_test_config
        true
        (text "10.0.0.1")
        unknown
      ≡ ok (
          complete longs ready_system ready_system reports reports [] [] default_test_config
            (text "10.0.0.1")
            unknown
            good
            good
            serving
            running
            sends
            judged_reportable
            good-IsReportable))
    × ((serve longs ready_system reports (start longs ready_system reports [] []) (
          config_message longs ready_system reports
            (answers longs ready_system ready_system reports reports [] [] default_test_config)
            default_test_config
          ∷ results_message longs ready_system reports
              (answers longs ready_system ready_system reports reports [] [] default_test_config)
              default_test_config
              (judged longs ready_system ready_system reports reports [] [] default_test_config
                good)
          ∷ [])).session_history
        ≡ record {
          client =
              judged longs ready_system ready_system reports reports [] [] default_test_config good;
          server = good;
        }
          ∷ [])
run_test-agrees_example =
    run_test-agrees longs ready_system ready_system reports reports [] [] default_test_config
      (text "10.0.0.1") unknown good good serving running sends judged_reportable good-IsReportable
