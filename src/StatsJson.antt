-- ===== src/StatsJson.antt =====
-- MyIperf/include/myiperf/Protocol.h and MyIperf/src/myiperf/ControlProtocol.cpp: statistics as JSON
-- texts, which the two sides send each other.
pub mod RoundTrip
use my_iperf.Prelude.{ℕ, ◌≡◌, String, Text, text, Option, none, some}
use my_iperf.Result.{Result, ok, throw, ◌>>=◌}
use my_iperf.Json.{JsonLib}
use my_iperf.Stats.{Floats, TestStats}

-- What the exchange of messages uses of the JSON library beyond objects: the conversions of
-- `long long` and `double`, and the text of a value. A text is read back as the value it was written
-- from if it is plain: its strings are UTF-8 and its numbers finite.
pub record TextLib (f : Floats) (lib : JsonLib) : Type 1 where
  pub of_count : ℕ → lib.Json
  pub of_real : f.Real → lib.Json
  pub get_count : lib.Json → Result ℕ
  pub get_real : lib.Json → Result f.Real
  pub dump : lib.Json → Text
  pub parse : Text → Result lib.Json
  pub IsFinite : f.Real → Type 0
  pub IsPlain : lib.Json → Type 0
  pub get_count-of_count : (n : ℕ) → get_count (of_count n) ≡ ok n
  pub get_real-of_real : (x : f.Real) → IsFinite x → get_real (of_real x) ≡ ok x
  pub object-IsPlain : IsPlain lib.object
  pub of_count-IsPlain : (n : ℕ) → IsPlain (of_count n)
  pub of_real-IsPlain : (x : f.Real) → IsFinite x → IsPlain (of_real x)
  pub with_member-IsPlain :
      (k : String) (v root : lib.Json)
      → IsPlain v
      → IsPlain root
      → IsPlain (lib.with_member k v root)
  pub parse-dump : (j : lib.Json) → IsPlain j → parse (dump j) ≡ ok j

module _ {f : Floats} {lib : JsonLib} (texts : TextLib f lib) where
  open lib use {Json, object, member, with_member}
  open texts use {of_count, of_real, get_count, get_real, dump, parse}

  unfoldable pub stats_to_json : TestStats f.Real → Json
  stats_to_json s = with_member "totalBytesSent" (of_count s.total_bytes_sent) (
      with_member "totalPacketsSent" (of_count s.total_packets_sent) (
        with_member "totalBytesReceived" (of_count s.total_bytes_received) (
          with_member "totalPacketsReceived" (of_count s.total_packets_received) (
            with_member "failedChecksumCount" (of_count s.failed_checksum_count) (
              with_member "sequenceErrorCount" (of_count s.sequence_error_count) (
                with_member "contentMismatchCount" (of_count s.content_mismatch_count) (
                  with_member "duration" (of_real s.duration)
                    (with_member "throughputMbps" (of_real s.throughput_mbps) object))))))))

  -- `j.at(key)`.
  unfoldable pub at : String → Json → Result Json
  at key j = elim (member key j) [ none ↦ throw (text "key not found") | some v ↦ ok v ]

  -- `j.at(key).get_to(field)`.
  unfoldable pub get_at : {A : Type 0} → String → (Json → Result A) → Json → Result A
  unfolding at
  get_at key get j = at key j >>= get

  unfoldable pub stats_from_json : Json → Result (TestStats f.Real)
  stats_from_json j = do
    bytes_sent ← get_at "totalBytesSent" get_count j
    packets_sent ← get_at "totalPacketsSent" get_count j
    bytes_received ← get_at "totalBytesReceived" get_count j
    packets_received ← get_at "totalPacketsReceived" get_count j
    checksums ← get_at "failedChecksumCount" get_count j
    sequence ← get_at "sequenceErrorCount" get_count j
    contents ← get_at "contentMismatchCount" get_count j
    duration ← get_at "duration" get_real j
    throughput ← get_at "throughputMbps" get_real j
    ok (record {
      total_bytes_sent = bytes_sent;
      total_packets_sent = packets_sent;
      total_bytes_received = bytes_received;
      total_packets_received = packets_received;
      failed_checksum_count = checksums;
      sequence_error_count = sequence;
      content_mismatch_count = contents;
      duration = duration;
      throughput_mbps = throughput;
    })

  -- `parseJsonPayload`.
  unfoldable pub parse_json_payload : Text → Result Json
  parse_json_payload payload = parse payload

  unfoldable pub parse_stats_payload : Text → Result (TestStats f.Real)
  unfolding parse_json_payload
  parse_stats_payload payload = parse_json_payload payload >>= stats_from_json

  unfoldable pub stats_to_payload : TestStats f.Real → Text
  stats_to_payload s = dump (stats_to_json s)
