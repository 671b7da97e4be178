-- ===== src/Examples/ResultFiles.antt =====
-- The file of a client whose export of an earlier result failed.
use my_iperf.Prelude.{
  ◌≡◌, refl, Text, text, text_eq, Option, some, none, ◌++◌, if◌then◌else◌, arith, [],
}
use my_iperf.Result.{ok}
use my_iperf.Config.{default_config}
use my_iperf.Stats.{zero_stats, TestStats}
use my_iperf.RunResult.{State, Snapshot}
use my_iperf.RunResult.RunJson.{run_to_json}
use my_iperf.Runner.{TestConfig, default_test_config}
use my_iperf.Runner.ResultFile.{result_role, result_file_path, blank_result, parse_result_file}
use my_iperf.Runner.ResultFile.Filled.{received}
use my_iperf.Runner.ResultFile.Written.{judged, run, parse_result_file-build}
use my_iperf.Examples.Inputs.{ticks}
use my_iperf.Examples.Texts.{texts}
use my_iperf.Examples.Runners.{longs}

abbrev some_stats : TestStats ticks.Real
some_stats = record (zero_stats ticks) {
  total_bytes_received = 80;
  total_packets_received = 10;
  sequence_error_count = 1;
}

abbrev snapshot : Snapshot ticks.Real
snapshot = record {
  run_id = text "r1";
  started_at = text "10:00";
  result_export_warning = text "no space";
  state = State.finished;
  config = default_config;
  client_stats_phase1 = zero_stats ticks;
  server_stats_phase1 = zero_stats ticks;
  client_stats_phase2 = some_stats;
  server_stats_phase2 = zero_stats ticks;
}

abbrev config : TestConfig
config = record default_test_config { run_id = text "r1" }

abbrev join : Text → Text → Text
join dir name = dir ++ (text "/" ++ name)

abbrev file : Text
file = run_to_json texts (run longs join (λ path. none) snapshot (text "10:01") [])

abbrev open_file : Text → Option Text
open_file path = if text_eq path (text "Results/result-r1-CLIENT.json") then some file else none

opened : open_file (result_file_path longs join open_file config (text "Client")) ≡ some file
unfolding result_file_path result_role default_test_config
opened = refl

parse_result_file-build_example :
    parse_result_file longs join open_file config (text "Client")
    ≡ ok (
        judged longs join open_file (run longs join open_file snapshot (text "10:01") []) (
          received longs join open_file some_stats
            (blank_result longs join open_file config (text "Client"))))
parse_result_file-build_example =
    parse_result_file-build longs join open_file snapshot (text "10:01") [] config (text "Client")
      file refl refl
      (record {
        bytes_long = omega arith;
        packets_long = omega arith;
        checksums_long = omega arith;
        sequence_long = omega arith;
        contents_long = omega arith;
        duration_finite = tt;
        throughput_finite = tt;
      })
      opened refl
