-- ===== src/Runner/Plain.antt =====
-- TestRunner/Message.cpp: the values that the messages are written from, and which of them JSON can hold.
use my_iperf.Prelude.{◌≡◌, String, Text, some, All, Bool, arith, ◌<◌}
use my_iperf.Prelude.Int.{ℤ}
use my_iperf.Result.{Result, ok}
use my_iperf.Json.{JsonLib, IsInt}
use my_iperf.Stats.{Floats}
use my_iperf.StatsJson.{TextLib}
use my_iperf.StatsJson.RoundTrip.{get_at-some}
use my_iperf.Runner.{MessageType, message_type_to_string, TestConfig, TestResult, Message}
use my_iperf.Runner.Kinds.{string_to_message_type-to_string}
use my_iperf.Runner.Messages.{
  IsLong, LongLib, rethrow, get_optional, config_to_json, result_to_json, typed, get_message_type,
}

module _ {f : Floats} {lib : JsonLib} {texts : TextLib f lib} (longs : LongLib texts) where
  open lib use {
    Json, object, member, with_member, of_int, of_text, of_bool, get_int, get_text, get_bool,
    member-with_member, get_int-of_int, get_text-of_text, get_bool-of_bool,
  }
  open texts use {
    of_real, get_real, dump, parse, IsFinite, IsPlain, get_real-of_real, object-IsPlain,
    of_real-IsPlain, with_member-IsPlain, parse-dump,
  }
  open longs use {
    of_long, get_long, IsUtf8, get_long-of_long, ascii-IsUtf8, of_long-IsPlain, of_int-IsPlain,
    of_bool-IsPlain, of_text-IsPlain,
  }

  -- The strings of a configuration are UTF-8 and its numbers fit their types.
  pub record IsSendable (c : TestConfig) : Type 0 where
    pub mode_utf8 : IsUtf8 c.mode
    pub config_path_utf8 : IsUtf8 c.config_path
    pub target_ip_utf8 : IsUtf8 c.target_ip
    pub server_bind_ip_utf8 : IsUtf8 c.server_bind_ip
    pub port_int : IsInt c.port
    pub packet_size_int : IsInt c.packet_size
    pub num_packets_long : IsLong c.num_packets
    pub send_interval_int : IsInt c.send_interval_ms
    pub protocol_utf8 : IsUtf8 c.protocol
    pub run_id_utf8 : IsUtf8 c.run_id
    pub result_dir_utf8 : IsUtf8 c.result_dir

  -- The same of a result, whose floating-point fields are finite.
  pub record IsReportable (r : TestResult f.Real) : Type 0 where
    pub role_utf8 : IsUtf8 r.role
    pub port_int : IsInt r.port
    pub duration_finite : IsFinite r.duration
    pub throughput_finite : IsFinite r.throughput
    pub host_total_bytes_long : IsLong r.host_total_bytes
    pub total_bytes_long : IsLong r.total_bytes
    pub total_packets_long : IsLong r.total_packets
    pub expected_bytes_long : IsLong r.expected_bytes
    pub expected_packets_long : IsLong r.expected_packets
    pub sequence_errors_long : IsLong r.sequence_errors
    pub checksum_errors_long : IsLong r.checksum_errors
    pub content_mismatches_long : IsLong r.content_mismatches
    pub failure_reason_utf8 : IsUtf8 r.failure_reason

  pub get_optional-some :
      {A : Type 0} (key : String) (get : Json → Result A) (old : A) (j v : Json) (x : A)
      → member key j ≡ some v
      → get v ≡ ok x
      → get_optional longs key get old j ≡ ok x
  unfolding get_optional
  get_optional-some key get old j v x e g = rw (e, get_optional) g

  pub put_text :
      (k : String) (t : Text) (j : Json)
      → IsUtf8 t
      → IsPlain j
      → IsPlain (with_member k (of_text t) j)
  put_text k t j u h = with_member-IsPlain k _ j (of_text-IsPlain t u) h

  pub put_int : (k : String) (n : ℤ) (j : Json) → IsPlain j → IsPlain (with_member k (of_int n) j)
  put_int k n j h = with_member-IsPlain k _ j (of_int-IsPlain n) h

  pub put_long : (k : String) (n : ℤ) (j : Json) → IsPlain j → IsPlain (with_member k (of_long n) j)
  put_long k n j h = with_member-IsPlain k _ j (of_long-IsPlain n) h

  pub put_bool :
      (k : String) (b : Bool) (j : Json) → IsPlain j → IsPlain (with_member k (of_bool b) j)
  put_bool k b j h = with_member-IsPlain k _ j (of_bool-IsPlain b) h

  pub put_real :
      (k : String) (x : f.Real) (j : Json)
      → IsFinite x
      → IsPlain j
      → IsPlain (with_member k (of_real x) j)
  put_real k x j u h = with_member-IsPlain k _ j (of_real-IsPlain x u) h

  pub config_to_json-IsPlain : (c : TestConfig) → IsSendable c → IsPlain (config_to_json longs c)
  unfolding config_to_json
  config_to_json-IsPlain c h = put_text _ _ _ h.result_dir_utf8 (
      put_text _ _ _ h.run_id_utf8 (
        put_text _ _ _ h.protocol_utf8 (
          put_bool _ _ _ (
            put_int _ _ _ (
              put_long _ _ _ (
                put_int _ _ _ (
                  put_int _ _ _ (
                    put_text _ _ _ h.server_bind_ip_utf8 (
                      put_text _ _ _ h.target_ip_utf8 (
                        put_text _ _ _ h.config_path_utf8
                          (put_text _ _ _ h.mode_utf8 object-IsPlain)))))))))))

  pub result_to_json-IsPlain :
      (r : TestResult f.Real) → IsReportable r → IsPlain (result_to_json longs r)
  unfolding result_to_json
  result_to_json-IsPlain r h = put_bool _ _ _ (
      put_text _ _ _ h.failure_reason_utf8 (
        put_long _ _ _ (
          put_long _ _ _ (
            put_long _ _ _ (
              put_long _ _ _ (
                put_long _ _ _ (
                  put_long _ _ _ (
                    put_long _ _ _ (
                      put_long _ _ _ (
                        put_real _ _ _ h.throughput_finite (
                          put_real _ _ _ h.duration_finite
                            (put_int _ _ _ (put_text _ _ _ h.role_utf8 object-IsPlain)))))))))))))

  name_ascii : (t : MessageType) → All (λ c. c < 128) (message_type_to_string t)
  unfolding message_type_to_string
  name_ascii MessageType.config_request = omega arith
  name_ascii MessageType.server_ready = omega arith
  name_ascii MessageType.test_complete = omega arith
  name_ascii MessageType.results_request = omega arith
  name_ascii MessageType.results_response = omega arith
  name_ascii MessageType.error_message = omega arith
  name_ascii MessageType.heartbeat = omega arith
  name_ascii MessageType.server_shutdown = omega arith

  pub typed-IsPlain : (m : Message) → IsPlain (typed longs m)
  typed-IsPlain m = put_text "messageType" _ _ (ascii-IsUtf8 _ (name_ascii m.kind)) object-IsPlain

  -- The type of a message is read from its text, whatever its other members.
  pub get_message_type-dump :
      (t : MessageType) (root : Json)
      → IsPlain root
      → member "messageType" root ≡ some (of_text (message_type_to_string t))
      → get_message_type longs (dump root) ≡ ok t
  unfolding get_message_type rethrow
  get_message_type-dump t root h e = rw (
    parse-dump root h,
    get_at-some texts "messageType" get_text root _ _ e
        (get_text-of_text (message_type_to_string t)),
    string_to_message_type-to_string t,
  )
