-- ===== src/Runner/Messages.antt =====
-- TestRunner/Message.cpp: the messages as JSON texts.
use my_iperf.Prelude.{
  ℕ, false, ◌≡◌, ◌≤◌, ◌<◌, ◌^◌, String, Text, text, none, some, ◌++◌, All, is_empty, if◌then◌else◌,
}
use my_iperf.Prelude.Int.{ℤ, pos, pos_part, neg_part}
use my_iperf.Result.{Result, ok, throw, ◌>>=◌}
use my_iperf.Json.{JsonLib}
use my_iperf.Stats.{Floats}
use my_iperf.StatsJson.{TextLib, get_at}
use my_iperf.Runner.{
  MessageType, message_type_to_string, string_to_message_type, TestConfig, default_test_config,
  TestResult, default_test_result, Message, make_message, ConfigRequestMessage, ServerReadyMessage,
  TestCompleteMessage, ResultsRequestMessage, ResultsResponseMessage, ErrorMessage,
}

-- The values of a 64-bit `long long`.
abbrev pub IsLong : ℤ → Type 0
IsLong n = (pos_part n < 2 ^ 63) × (neg_part n ≤ 2 ^ 63)

-- The conversions of `long long`, and which strings a JSON text can hold.
pub record LongLib {f : Floats} {lib : JsonLib} (texts : TextLib f lib) : Type 1 where
  pub of_long : ℤ → lib.Json
  pub get_long : lib.Json → Result ℤ
  pub IsUtf8 : Text → Type 0
  pub get_long-of_long : (n : ℤ) → IsLong n → get_long (of_long n) ≡ ok n
  pub get_long-of_count : (n : ℕ) → n < 2 ^ 63 → get_long (texts.of_count n) ≡ ok (pos n)
  pub ascii-IsUtf8 : (t : Text) → All (λ c. c < 128) t → IsUtf8 t
  pub of_long-IsPlain : (n : ℤ) → texts.IsPlain (of_long n)
  pub of_int-IsPlain : (n : ℤ) → texts.IsPlain (lib.of_int n)
  pub of_bool-IsPlain : (b : _) → texts.IsPlain (lib.of_bool b)
  pub of_text-IsPlain : (t : Text) → IsUtf8 t → texts.IsPlain (lib.of_text t)
  -- the text of an object that has a member is not empty
  pub dump-with_member :
      (k : String) (v root : lib.Json) → is_empty (texts.dump (lib.with_member k v root)) ≡ false

-- `catch (const std::exception &e) { throw std::runtime_error(prefix + e.what()); }`
unfoldable pub rethrow : {A : Type 0} → Text → Result A → Result A
rethrow prefix (throw what) = throw (prefix ++ what)
rethrow prefix (ok a) = ok a

module _ {f : Floats} {lib : JsonLib} {texts : TextLib f lib} (longs : LongLib texts) where
  open lib use {
    Json, object, member, with_member, of_int, of_text, of_bool, get_int, get_text, get_bool,
  }
  open texts use {of_real, get_real, dump, parse}
  open longs use {of_long, get_long}

  -- `if (j.contains(key)) j.at(key).get_to(field);`, where the field holds `old`.
  unfoldable pub get_optional : {A : Type 0} → String → (Json → Result A) → A → Json → Result A
  get_optional key get old j = elim (member key j) [ none ↦ ok old | some v ↦ get v ]

  unfoldable pub config_to_json : TestConfig → Json
  config_to_json c = with_member "resultDir" (of_text c.result_dir) (
      with_member "runId" (of_text c.run_id) (
        with_member "protocol" (of_text c.protocol) (
          with_member "saveLogs" (of_bool c.save_logs) (
            with_member "sendIntervalMs" (of_int c.send_interval_ms) (
              with_member "numPackets" (of_long c.num_packets) (
                with_member "packetSize" (of_int c.packet_size) (
                  with_member "port" (of_int c.port) (
                    with_member "serverBindIP" (of_text c.server_bind_ip) (
                      with_member "targetIP" (of_text c.target_ip) (
                        with_member "configPath" (of_text c.config_path)
                          (with_member "mode" (of_text c.mode) object)))))))))))

  unfoldable pub config_from_json : Json → Result TestConfig
  unfolding get_optional
  config_from_json j = do
    mode ← get_at texts "mode" get_text j
    path ← get_at texts "configPath" get_text j
    target ← get_at texts "targetIP" get_text j
    bind ← get_optional "serverBindIP" get_text default_test_config.server_bind_ip j
    port ← get_at texts "port" get_int j
    size ← get_at texts "packetSize" get_int j
    packets ← get_at texts "numPackets" get_long j
    interval ← get_at texts "sendIntervalMs" get_int j
    save ← get_at texts "saveLogs" get_bool j
    protocol ← get_at texts "protocol" get_text j
    run ← get_optional "runId" get_text default_test_config.run_id j
    dir ← get_optional "resultDir" get_text default_test_config.result_dir j
    ok (record {
      mode = mode;
      config_path = path;
      target_ip = target;
      server_bind_ip = bind;
      port = port;
      packet_size = size;
      num_packets = packets;
      send_interval_ms = interval;
      save_logs = save;
      protocol = protocol;
      run_id = run;
      result_dir = dir;
    })

  unfoldable pub result_to_json : TestResult f.Real → Json
  result_to_json r = with_member "success" (of_bool r.success) (
      with_member "failureReason" (of_text r.failure_reason) (
        with_member "contentMismatches" (of_long r.content_mismatches) (
          with_member "checksumErrors" (of_long r.checksum_errors) (
            with_member "sequenceErrors" (of_long r.sequence_errors) (
              with_member "expectedPackets" (of_long r.expected_packets) (
                with_member "expectedBytes" (of_long r.expected_bytes) (
                  with_member "totalPackets" (of_long r.total_packets) (
                    with_member "totalBytes" (of_long r.total_bytes) (
                      with_member "hostTotalBytes" (of_long r.host_total_bytes) (
                        with_member "throughput" (of_real r.throughput) (
                          with_member "duration" (of_real r.duration) (
                            with_member "port" (of_int r.port)
                              (with_member "role" (of_text r.role) object)))))))))))))

  unfoldable pub result_from_json : Json → Result (TestResult f.Real)
  unfolding get_optional
  result_from_json j = do
    role ← get_at texts "role" get_text j
    port ← get_at texts "port" get_int j
    duration ← get_at texts "duration" get_real j
    throughput ← get_at texts "throughput" get_real j
    host ←
        get_optional "hostTotalBytes" get_long (default_test_result f.zero_real).host_total_bytes j
    bytes ← get_at texts "totalBytes" get_long j
    packets ← get_at texts "totalPackets" get_long j
    expected_bytes ← get_at texts "expectedBytes" get_long j
    expected_packets ← get_at texts "expectedPackets" get_long j
    sequence ← get_at texts "sequenceErrors" get_long j
    checksums ← get_at texts "checksumErrors" get_long j
    mismatches ← get_at texts "contentMismatches" get_long j
    reason ← get_at texts "failureReason" get_text j
    success ← get_at texts "success" get_bool j
    ok (record {
      role = role;
      port = port;
      duration = duration;
      throughput = throughput;
      host_total_bytes = host;
      total_bytes = bytes;
      total_packets = packets;
      expected_bytes = expected_bytes;
      expected_packets = expected_packets;
      sequence_errors = sequence;
      checksum_errors = checksums;
      content_mismatches = mismatches;
      failure_reason = reason;
      success = success;
    })

  -- `json j; j["messageType"] = MessageTypeToString(msg.type);`
  abbrev pub typed : Message → Json
  typed m = with_member "messageType" (of_text (message_type_to_string m.kind)) object

  unfoldable pub serialize_message : Message → Text
  serialize_message m = dump (
      if is_empty m.error_text
      then typed m
      else with_member "errorMessage" (of_text m.error_text) (typed m))

  unfoldable pub serialize_config_request : ConfigRequestMessage → Text
  unfolding config_to_json
  serialize_config_request m =
      dump (with_member "testConfig" (config_to_json m.config) (typed m.base))

  unfoldable pub serialize_server_ready : ServerReadyMessage → Text
  serialize_server_ready m = dump (
      with_member "serverIP" (of_text m.server_ip)
        (with_member "port" (of_int m.port) (typed m.base)))

  unfoldable pub serialize_test_complete : TestCompleteMessage → Text
  serialize_test_complete m = dump (
      with_member "success" (of_bool m.success) (with_member "port" (of_int m.port) (typed m.base)))

  unfoldable pub serialize_results_request : ResultsRequestMessage f.Real → Text
  unfolding result_to_json
  serialize_results_request m = dump (
      with_member "clientResult" (result_to_json m.client_result)
        (with_member "port" (of_int m.port) (typed m.base)))

  unfoldable pub serialize_results_response : ResultsResponseMessage f.Real → Text
  unfolding result_to_json
  serialize_results_response m =
      dump (with_member "serverResult" (result_to_json m.server_result) (typed m.base))

  unfoldable pub serialize_error : ErrorMessage → Text
  serialize_error m = dump (with_member "error" (of_text m.error) (typed m.base))

  unfoldable pub serialize_server_shutdown : Message → Text
  serialize_server_shutdown m = dump (typed m)

  unfoldable pub get_message_type : Text → Result MessageType
  unfolding rethrow
  get_message_type s =
      rethrow (text "Failed to parse message type: ")
        (do j ← parse s; name ← get_at texts "messageType" get_text j; string_to_message_type name)

  unfoldable pub deserialize_config_request : Text → Result ConfigRequestMessage
  unfolding config_from_json
  deserialize_config_request s = do
    j ← parse s
    c ← get_at texts "testConfig" config_from_json j
    ok (record { base = make_message MessageType.config_request; config = c })

  unfoldable pub deserialize_server_ready : Text → Result ServerReadyMessage
  deserialize_server_ready s = do
    j ← parse s
    port ← get_at texts "port" get_int j
    ip ← get_at texts "serverIP" get_text j
    ok (record { base = make_message MessageType.server_ready; port = port; server_ip = ip })

  unfoldable pub deserialize_test_complete : Text → Result TestCompleteMessage
  deserialize_test_complete s = do
    j ← parse s
    port ← get_at texts "port" get_int j
    success ← get_at texts "success" get_bool j
    ok (record { base = make_message MessageType.test_complete; port = port; success = success })

  unfoldable pub deserialize_results_request : Text → Result (ResultsRequestMessage f.Real)
  unfolding result_from_json
  deserialize_results_request s = do
    j ← parse s
    port ← get_at texts "port" get_int j
    r ← get_at texts "clientResult" result_from_json j
    ok (record { base = make_message MessageType.results_request; port = port; client_result = r })

  unfoldable pub deserialize_results_response : Text → Result (ResultsResponseMessage f.Real)
  unfolding result_from_json
  deserialize_results_response s = do
    j ← parse s
    r ← get_at texts "serverResult" result_from_json j
    ok (record { base = make_message MessageType.results_response; server_result = r })

  unfoldable pub deserialize_error : Text → Result ErrorMessage
  deserialize_error s = do
    j ← parse s
    e ← get_at texts "error" get_text j
    ok (record { base = make_message MessageType.error_message; error = e })

-- The text is not read.
unfoldable pub deserialize_server_shutdown : Text → Message
deserialize_server_shutdown s = make_message MessageType.server_shutdown
