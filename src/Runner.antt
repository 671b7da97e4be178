-- ===== src/Runner.antt =====
-- TestRunner/Protocol.h and TestRunner/Message.{h,cpp}: the messages by which the two test runners
-- agree on a run and exchange its results.
pub mod Messages
pub mod Plain
pub mod Codec
pub mod Kinds
pub mod Analysis
pub mod Framing
pub mod Processes
pub mod Serving
pub mod Testing
pub mod ResultFile
pub mod Output
use my_iperf.Prelude.{
  ℕ, Text, text, Bool, true, false, List, [], ◌∷◌, ◌++◌, not, ◌&&◌, text_eq, is_empty,
  if◌then◌else◌,
}
use my_iperf.Prelude.Int.{ℤ, pos, leb_ℤ, ltb_ℤ, eqb_ℤ, to_string_ℤ}
use my_iperf.Result.{Result, ok, throw}

pub data MessageType : Type 0 where
  config_request server_ready test_complete results_request results_response error_message heartbeat
        server_shutdown :
      MessageType

unfoldable pub message_type_to_string : MessageType → Text
message_type_to_string MessageType.config_request = text "CONFIG_REQUEST"
message_type_to_string MessageType.server_ready = text "SERVER_READY"
message_type_to_string MessageType.test_complete = text "TEST_COMPLETE"
message_type_to_string MessageType.results_request = text "RESULTS_REQUEST"
message_type_to_string MessageType.results_response = text "RESULTS_RESPONSE"
message_type_to_string MessageType.error_message = text "ERROR_MESSAGE"
message_type_to_string MessageType.heartbeat = text "HEARTBEAT"
message_type_to_string MessageType.server_shutdown = text "SERVER_SHUTDOWN"

unfoldable pub string_to_message_type : Text → Result MessageType
string_to_message_type str =
    if text_eq str (text "CONFIG_REQUEST")
    then ok MessageType.config_request
    else if text_eq str (text "SERVER_READY")
    then ok MessageType.server_ready
    else if text_eq str (text "TEST_COMPLETE")
    then ok MessageType.test_complete
    else if text_eq str (text "RESULTS_REQUEST")
    then ok MessageType.results_request
    else if text_eq str (text "RESULTS_RESPONSE")
    then ok MessageType.results_response
    else if text_eq str (text "ERROR_MESSAGE")
    then ok MessageType.error_message
    else if text_eq str (text "HEARTBEAT")
    then ok MessageType.heartbeat
    else if text_eq str (text "SERVER_SHUTDOWN")
    then ok MessageType.server_shutdown
    else throw (text "Unknown message type: " ++ str)

abbrev pub default_test_port : ℕ
default_test_port = 5201

abbrev pub max_message_size : ℕ
max_message_size = 65536

pub record TestConfig : Type 0 where
  pub mode : Text
  pub config_path : Text
  pub target_ip : Text
  pub server_bind_ip : Text
  pub port : ℤ
  pub packet_size : ℤ
  pub num_packets : ℤ
  pub send_interval_ms : ℤ
  pub save_logs : Bool
  pub protocol : Text
  pub run_id : Text
  pub result_dir : Text

-- The default constructor.
unfoldable pub default_test_config : TestConfig
default_test_config = record {
  mode = [];
  config_path = [];
  target_ip = text "0.0.0.0";
  server_bind_ip = text "0.0.0.0";
  port = pos default_test_port;
  packet_size = pos 8192;
  num_packets = pos 10000;
  send_interval_ms = pos 0;
  save_logs = true;
  protocol = text "TCP";
  run_id = [];
  result_dir = text "Results";
}

pub record TestResult (Real : Type 0) : Type 0 where
  pub role : Text
  pub port : ℤ
  pub duration : Real
  pub throughput : Real
  pub host_total_bytes : ℤ
  pub total_bytes : ℤ
  pub total_packets : ℤ
  pub expected_bytes : ℤ
  pub expected_packets : ℤ
  pub sequence_errors : ℤ
  pub checksum_errors : ℤ
  pub content_mismatches : ℤ
  pub failure_reason : Text
  pub success : Bool

-- The default constructor; `zero` is `0.0`.
abbrev pub default_test_result : {Real : Type 0} → Real → TestResult Real
default_test_result zero = record {
  role = [];
  port = pos 0;
  duration = zero;
  throughput = zero;
  host_total_bytes = pos 0;
  total_bytes = pos 0;
  total_packets = pos 0;
  expected_bytes = pos 0;
  expected_packets = pos 0;
  sequence_errors = pos 0;
  checksum_errors = pos 0;
  content_mismatches = pos 0;
  failure_reason = [];
  success = false;
}

pub record Message : Type 0 where
  pub kind : MessageType
  pub error_text : Text

-- `Message(MessageType t)`.
abbrev pub make_message : MessageType → Message
make_message t = record { kind = t; error_text = [] }

pub record ConfigRequestMessage : Type 0 where
  pub base : Message
  pub config : TestConfig

pub record ServerReadyMessage : Type 0 where
  pub base : Message
  pub port : ℤ
  pub server_ip : Text

pub record TestCompleteMessage : Type 0 where
  pub base : Message
  pub port : ℤ
  pub success : Bool

pub record ResultsRequestMessage (Real : Type 0) : Type 0 where
  pub base : Message
  pub port : ℤ
  pub client_result : TestResult Real

pub record ResultsResponseMessage (Real : Type 0) : Type 0 where
  pub base : Message
  pub server_result : TestResult Real

pub record ErrorMessage : Type 0 where
  pub base : Message
  pub error : Text

-- The checks of `AnalyzeTestResult`, in order: whether each one fails, and what it then reports.
abbrev Check : Type 0
Check = Bool × Text

count_text : ℤ → ℤ → Text
unfolding to_string_ℤ
count_text got wanted = to_string_ℤ got ++ (text ", Exp: " ++ (to_string_ℤ wanted ++ text "); "))

errors_text : ℤ → Text
unfolding to_string_ℤ
errors_text n = to_string_ℤ n ++ text "); "

-- `if (test) { passed = false; reason += what; }` for each check.
unfoldable pub run_checks : List Check → Bool → Text → Bool × Text
run_checks [] passed reason = (passed, reason)
run_checks ((failing, what) ∷ checks) passed reason =
    run_checks checks (if failing then false else passed)
      (if failing then reason ++ what else reason)

unfoldable pub checks_of : {Real : Type 0} → TestResult Real → ℤ → ℤ → List Check
unfolding count_text errors_text
checks_of r packets bytes =
    (not r.success && not (is_empty r.failure_reason), r.failure_reason ++ text "; ")
    ∷ (
      ltb_ℤ (pos 0) packets && not (eqb_ℤ r.total_packets packets),
      text "Packet count mismatch (Rx: " ++ count_text r.total_packets packets,
    )
    ∷ (
      ltb_ℤ (pos 0) bytes && not (eqb_ℤ r.total_bytes bytes),
      text "Byte count mismatch (Rx: " ++ count_text r.total_bytes bytes,
    )
    ∷ (leb_ℤ r.total_packets (pos 0), text "No packets parsed from IPEFTC output; ")
    ∷ (
      ltb_ℤ (pos 0) r.sequence_errors,
      text "Sequence errors detected (" ++ errors_text r.sequence_errors,
    )
    ∷ (
      ltb_ℤ (pos 0) r.checksum_errors,
      text "Checksum errors detected (" ++ errors_text r.checksum_errors,
    )
    ∷ (
      ltb_ℤ (pos 0) r.content_mismatches,
      text "Content mismatches detected (" ++ errors_text r.content_mismatches,
    )
    ∷ []

unfoldable pub analyze_test_result : {Real : Type 0} → TestResult Real → ℤ → ℤ → TestResult Real
unfolding run_checks checks_of
analyze_test_result result packets bytes =
    let (passed, reason) = run_checks (checks_of result packets bytes) true [] in
    record result {
      expected_packets = packets;
      expected_bytes = bytes;
      success = passed;
      failure_reason =
          if passed && is_empty reason then text "Test passed successfully" else reason;
    }
