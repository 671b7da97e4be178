-- ===== src/Runner/ResultFile.antt =====
-- TestRunner/ProcessManager.cpp, `ParseResultFile`: the result that a process of the test left in a file.
-- `join` is `operator/` of paths and `open_file` the text of the file at a path, where it can be opened.
pub mod Filled
pub mod Written
use my_iperf.Prelude.{
  ◌≡◌, String, Text, text, text_eq, Bool, true, false, Option, none, some, [], ◌++◌, is_empty,
  if◌then◌else◌,
}
use my_iperf.Result.{Result, ok, throw, ◌>>=◌}
use my_iperf.Json.{JsonLib}
use my_iperf.Stats.{Floats}
use my_iperf.StatsJson.{TextLib, at, get_at}
use my_iperf.Runner.{TestConfig, TestResult, default_test_result}
use my_iperf.Runner.Messages.{LongLib, get_optional}

unfoldable pub result_role : Text → Text
result_role role = if text_eq role (text "Client") then text "CLIENT" else text "SERVER"

unfoldable pub run_id_mismatch : Text → Text → Text
run_id_mismatch found expected =
    text "Result JSON runId mismatch (file=" ++ found ++ text ", expected=" ++ expected ++ text ")"

module _ {f : Floats} {lib : JsonLib} {texts : TextLib f lib} (longs : LongLib texts)
    (join : Text → Text → Text) (open_file : Text → Option Text) where
  open lib use {Json, get_text, get_bool}
  open texts use {get_real, parse}
  open longs use {get_long}

  unfoldable pub result_file_path : TestConfig → Text → Text
  unfolding result_role
  result_file_path config role =
      join config.result_dir
        (text "result-" ++ config.run_id ++ text "-" ++ result_role role ++ text ".json")

  unfoldable pub fill_from_stats : Json → Bool → TestResult f.Real → Result (TestResult f.Real)
  fill_from_stats stats prefer_sent result = do
    bytes ←
        get_at texts (if prefer_sent then "totalBytesSent" else "totalBytesReceived") get_long stats
    packets ←
        get_at texts (if prefer_sent then "totalPacketsSent" else "totalPacketsReceived") get_long
          stats
    duration ← get_at texts "duration" get_real stats
    throughput ← get_at texts "throughputMbps" get_real stats
    sequence ← get_at texts "sequenceErrorCount" get_long stats
    checksums ← get_at texts "failedChecksumCount" get_long stats
    contents ← get_at texts "contentMismatchCount" get_long stats
    ok (record result {
      total_bytes = bytes;
      total_packets = packets;
      duration = duration;
      throughput = throughput;
      sequence_errors = sequence;
      checksum_errors = checksums;
      content_mismatches = contents;
    })

  -- The statistics of phase `own`, if its receiver was `receiver`, and else what phase `other` sent.
  unfoldable pub fill_from_phases :
      String → String → Text → Json → TestResult f.Real → Result (TestResult f.Real)
  unfolding fill_from_stats
  fill_from_phases own other receiver root result = do
    phase ← at texts own root
    role ← get_at texts "receiverRole" get_text phase
    let received = at texts "receiverStats" phase >>= λ stats. fill_from_stats stats false result
    let sent = at texts other root >>= λ phase'.
        at texts "senderStats" phase' >>= λ stats. fill_from_stats stats true result
    if text_eq role receiver then received else sent

  unfoldable pub fill_verdict : Json → TestResult f.Real → Result (TestResult f.Real)
  fill_verdict root result = do
    success ← get_optional longs "success" get_bool false root
    reason ← get_optional longs "failureReason" get_text [] root
    warning ← get_optional longs "resultExportWarning" get_text [] root
    ok (record result {
      success = success;
      failure_reason =
          if is_empty warning
          then reason
          else (if is_empty reason then reason else reason ++ text "; ")
            ++ (text "Result export warning: " ++ warning);
    })

  unfoldable pub blank_result : TestConfig → Text → TestResult f.Real
  blank_result config role = record (default_test_result f.zero_real) {
    role = role;
    port = config.port;
  }

  unfoldable pub fill_result : Text → Json → TestResult f.Real → Result (TestResult f.Real)
  unfolding fill_from_phases fill_verdict
  fill_result role root blank =
      (if text_eq role (text "Client")
        then fill_from_phases "phase2" "phase1" (text "CLIENT") root blank
        else fill_from_phases "phase1" "phase2" (text "SERVER") root blank)
      >>= fill_verdict root

  -- A run with another name is an error of its own and no exception.
  unfoldable pub read_result : TestConfig → Text → Json → Result (Result (TestResult f.Real))
  unfolding fill_result blank_result run_id_mismatch
  read_result config role root = do
    run_id ← get_at texts "runId" get_text root
    let filled = fill_result role root (blank_result config role) >>= λ result. ok (ok result)
    if text_eq run_id config.run_id
        then filled
        else ok (throw (run_id_mismatch run_id config.run_id))

  unfoldable pub caught : Text → Result (Result (TestResult f.Real)) → Result (TestResult f.Real)
  caught path (ok result) = result
  caught path (throw what) =
      throw (text "Failed to parse result JSON " ++ path ++ text ": " ++ what)

  unfoldable pub read_file : TestConfig → Text → Text → Option Text → Result (TestResult f.Real)
  unfolding read_result caught
  read_file config role path none = throw (text "Result JSON not found: " ++ path)
  read_file config role path (some file) = caught path (parse file >>= read_result config role)

  -- `throw error` where `ParseResultFile` returns false with that error.
  unfoldable pub parse_result_file : TestConfig → Text → Result (TestResult f.Real)
  unfolding result_file_path read_file
  parse_result_file config role =
      let path = result_file_path config role in
      if is_empty config.run_id
      then throw (text "runId is empty; cannot locate MyIperf result JSON")
      else read_file config role path (open_file path)
