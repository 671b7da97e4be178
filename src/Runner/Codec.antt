-- ===== src/Runner/Codec.antt =====
-- TestRunner/Message.cpp: reading the messages that were written.
use my_iperf.Prelude.{◌≡◌, Text}
use my_iperf.Prelude.Int.{ℤ}
use my_iperf.Result.{ok}
use my_iperf.Json.{JsonLib, IsInt}
use my_iperf.Stats.{Floats}
use my_iperf.StatsJson.{TextLib}
use my_iperf.StatsJson.RoundTrip.{get_at-some}
use my_iperf.Runner.{
  MessageType, TestConfig, TestResult, make_message, ConfigRequestMessage, ServerReadyMessage,
  ResultsRequestMessage, ResultsResponseMessage,
}
use my_iperf.Runner.Plain.{
  IsSendable, IsReportable, get_optional-some, put_text, put_int, config_to_json-IsPlain,
  result_to_json-IsPlain, typed-IsPlain, get_message_type-dump,
}
use my_iperf.Runner.Messages.{
  LongLib, config_to_json, config_from_json, result_to_json, result_from_json, typed,
  serialize_config_request, serialize_server_ready, serialize_results_request,
  serialize_results_response, get_message_type, deserialize_config_request,
  deserialize_server_ready, deserialize_results_request, deserialize_results_response,
}

module _ {f : Floats} {lib : JsonLib} {texts : TextLib f lib} (longs : LongLib texts) where
  open lib use {
    Json, object, member, with_member, of_int, of_text, of_bool, get_int, get_text, get_bool,
    member-with_member, get_int-of_int, get_text-of_text, get_bool-of_bool,
  }
  open texts use {
    of_real, get_real, dump, parse, IsFinite, IsPlain, get_real-of_real, object-IsPlain,
    of_real-IsPlain, with_member-IsPlain, parse-dump,
  }
  open longs use {
    of_long, get_long, IsUtf8, get_long-of_long, ascii-IsUtf8, of_long-IsPlain, of_int-IsPlain,
    of_bool-IsPlain, of_text-IsPlain,
  }

  config_from_json-to_json :
      (c : TestConfig) → IsSendable longs c → config_from_json longs (config_to_json longs c) ≡ ok c
  unfolding config_from_json config_to_json
  config_from_json-to_json c h =
      let j = config_to_json longs c in
      rw (
        get_at-some texts "mode" get_text j _ _ (simp member-with_member) (get_text-of_text c.mode),
        get_at-some texts "configPath" get_text j _ _ (simp member-with_member)
            (get_text-of_text c.config_path),
        get_at-some texts "targetIP" get_text j _ _ (simp member-with_member)
            (get_text-of_text c.target_ip),
        get_optional-some longs "serverBindIP" get_text _ j _ _ (simp member-with_member)
            (get_text-of_text c.server_bind_ip),
        get_at-some texts "port" get_int j _ _ (simp member-with_member)
            (get_int-of_int c.port h.port_int),
        get_at-some texts "packetSize" get_int j _ _ (simp member-with_member)
            (get_int-of_int c.packet_size h.packet_size_int),
        get_at-some texts "numPackets" get_long j _ _ (simp member-with_member)
            (get_long-of_long c.num_packets h.num_packets_long),
        get_at-some texts "sendIntervalMs" get_int j _ _ (simp member-with_member)
            (get_int-of_int c.send_interval_ms h.send_interval_int),
        get_at-some texts "saveLogs" get_bool j _ _ (simp member-with_member)
            (get_bool-of_bool c.save_logs),
        get_at-some texts "protocol" get_text j _ _ (simp member-with_member)
            (get_text-of_text c.protocol),
        get_optional-some longs "runId" get_text _ j _ _ (simp member-with_member)
            (get_text-of_text c.run_id),
        get_optional-some longs "resultDir" get_text _ j _ _ (simp member-with_member)
            (get_text-of_text c.result_dir),
      )

  result_from_json-to_json :
      (r : TestResult f.Real)
      → IsReportable longs r
      → result_from_json longs (result_to_json longs r) ≡ ok r
  unfolding result_from_json result_to_json
  result_from_json-to_json r h =
      let j = result_to_json longs r in
      rw (
        get_at-some texts "role" get_text j _ _ (simp member-with_member) (get_text-of_text r.role),
        get_at-some texts "port" get_int j _ _ (simp member-with_member)
            (get_int-of_int r.port h.port_int),
        get_at-some texts "duration" get_real j _ _ (simp member-with_member)
            (get_real-of_real r.duration h.duration_finite),
        get_at-some texts "throughput" get_real j _ _ (simp member-with_member)
            (get_real-of_real r.throughput h.throughput_finite),
        get_optional-some longs "hostTotalBytes" get_long _ j _ _ (simp member-with_member)
            (get_long-of_long r.host_total_bytes h.host_total_bytes_long),
        get_at-some texts "totalBytes" get_long j _ _ (simp member-with_member)
            (get_long-of_long r.total_bytes h.total_bytes_long),
        get_at-some texts "totalPackets" get_long j _ _ (simp member-with_member)
            (get_long-of_long r.total_packets h.total_packets_long),
        get_at-some texts "expectedBytes" get_long j _ _ (simp member-with_member)
            (get_long-of_long r.expected_bytes h.expected_bytes_long),
        get_at-some texts "expectedPackets" get_long j _ _ (simp member-with_member)
            (get_long-of_long r.expected_packets h.expected_packets_long),
        get_at-some texts "sequenceErrors" get_long j _ _ (simp member-with_member)
            (get_long-of_long r.sequence_errors h.sequence_errors_long),
        get_at-some texts "checksumErrors" get_long j _ _ (simp member-with_member)
            (get_long-of_long r.checksum_errors h.checksum_errors_long),
        get_at-some texts "contentMismatches" get_long j _ _ (simp member-with_member)
            (get_long-of_long r.content_mismatches h.content_mismatches_long),
        get_at-some texts "failureReason" get_text j _ _ (simp member-with_member)
            (get_text-of_text r.failure_reason),
        get_at-some texts "success" get_bool j _ _ (simp member-with_member)
            (get_bool-of_bool r.success),
      )

  abbrev pub config_request : TestConfig → ConfigRequestMessage
  config_request c = record { base = make_message MessageType.config_request; config = c }

  abbrev pub server_ready : ℤ → Text → ServerReadyMessage
  server_ready port ip = record {
    base = make_message MessageType.server_ready;
    port = port;
    server_ip = ip;
  }

  abbrev pub results_request : ℤ → TestResult f.Real → ResultsRequestMessage f.Real
  results_request port r = record {
    base = make_message MessageType.results_request;
    port = port;
    client_result = r;
  }

  abbrev pub results_response : TestResult f.Real → ResultsResponseMessage f.Real
  results_response r = record {
    base = make_message MessageType.results_response;
    server_result = r;
  }

  -- A request for a test, of strings that JSON can hold and of numbers that fit their types, arrives as
  -- that request, with the configuration unchanged.
  pub deserialize_config_request-serialize :
      (c : TestConfig)
      → IsSendable longs c
      → let s = serialize_config_request longs (config_request c) in
        (get_message_type longs s ≡ ok MessageType.config_request)
        × (deserialize_config_request longs s ≡ ok (config_request c))
  unfolding serialize_config_request deserialize_config_request
  deserialize_config_request-serialize c h =
      let base = typed longs (make_message MessageType.config_request) in
      let root = with_member "testConfig" (config_to_json longs c) base in
      let plain =
        with_member-IsPlain "testConfig" _ base (config_to_json-IsPlain longs c h)
          (typed-IsPlain longs (make_message MessageType.config_request)) in
      (
        get_message_type-dump longs MessageType.config_request root plain (simp member-with_member),
        rw (
          parse-dump root plain,
          get_at-some texts "testConfig" (config_from_json longs) root _ _ (simp member-with_member)
              (config_from_json-to_json c h),
        ),
      )

  -- The answer that the server is ready arrives as that answer, with its port and address.
  pub deserialize_server_ready-serialize :
      (port : ℤ) (ip : Text)
      → IsInt port
      → IsUtf8 ip
      → let s = serialize_server_ready longs (server_ready port ip) in
        (get_message_type longs s ≡ ok MessageType.server_ready)
        × (deserialize_server_ready longs s ≡ ok (server_ready port ip))
  unfolding serialize_server_ready deserialize_server_ready
  deserialize_server_ready-serialize port ip n u =
      let base = typed longs (make_message MessageType.server_ready) in
      let root = with_member "serverIP" (of_text ip) (with_member "port" (of_int port) base) in
      let plain = put_text longs "serverIP" ip _ u (
        put_int longs "port" port base
          (typed-IsPlain longs (make_message MessageType.server_ready))) in
      (
        get_message_type-dump longs MessageType.server_ready root plain (simp member-with_member),
        rw (
          parse-dump root plain,
          get_at-some texts "port" get_int root _ _ (simp member-with_member)
              (get_int-of_int port n),
          get_at-some texts "serverIP" get_text root _ _ (simp member-with_member)
              (get_text-of_text ip),
        ),
      )

  -- The client's request for results arrives as that request, with its own result unchanged.
  pub deserialize_results_request-serialize :
      (port : ℤ) (r : TestResult f.Real)
      → IsInt port
      → IsReportable longs r
      → let s = serialize_results_request longs (results_request port r) in
        (get_message_type longs s ≡ ok MessageType.results_request)
        × (deserialize_results_request longs s ≡ ok (results_request port r))
  unfolding serialize_results_request deserialize_results_request
  deserialize_results_request-serialize port r n h =
      let base = typed longs (make_message MessageType.results_request) in
      let root =
        with_member "clientResult" (result_to_json longs r)
          (with_member "port" (of_int port) base) in
      let plain = with_member-IsPlain "clientResult" _ _ (result_to_json-IsPlain longs r h) (
        put_int longs "port" port base
          (typed-IsPlain longs (make_message MessageType.results_request))) in
      (
        get_message_type-dump longs MessageType.results_request root plain
            (simp member-with_member),
        rw (
          parse-dump root plain,
          get_at-some texts "port" get_int root _ _ (simp member-with_member)
              (get_int-of_int port n),
          get_at-some texts "clientResult" (result_from_json longs) root _ _
              (simp member-with_member) (result_from_json-to_json r h),
        ),
      )

  -- The server's answer with its result arrives as that answer.
  pub deserialize_results_response-serialize :
      (r : TestResult f.Real)
      → IsReportable longs r
      → let s = serialize_results_response longs (results_response r) in
        (get_message_type longs s ≡ ok MessageType.results_response)
        × (deserialize_results_response longs s ≡ ok (results_response r))
  unfolding serialize_results_response deserialize_results_response
  deserialize_results_response-serialize r h =
      let base = typed longs (make_message MessageType.results_response) in
      let root = with_member "serverResult" (result_to_json longs r) base in
      let plain =
        with_member-IsPlain "serverResult" _ base (result_to_json-IsPlain longs r h)
          (typed-IsPlain longs (make_message MessageType.results_response)) in
      (
        get_message_type-dump longs MessageType.results_response root plain
            (simp member-with_member),
        rw (
          parse-dump root plain,
          get_at-some texts "serverResult" (result_from_json longs) root _ _
              (simp member-with_member) (result_from_json-to_json r h),
        ),
      )
