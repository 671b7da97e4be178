-- ===== src/ReceiveStats.antt =====
-- MyIperf/src/myiperf/PacketReceiveStats.{h,cpp}: the counters of the receiving side. Each method runs
-- under the mutex, so it is one step. The clock's reading is an argument.
pub mod Sequence
pub mod Totals
use my_iperf.Prelude.{
  ℕ, ◌+◌, ◌-◌, ◌%◌, ◌^◌, List, [], ◌∷◌, Bool, true, false, not, ◌&&◌, length, ltb, ◌==◌, text_eq,
  if◌then◌else◌,
}
use my_iperf.Protocol.{build_expected_payload}
use my_iperf.Parser.{ParsedPacket}
use my_iperf.Stats.{Floats, TestStats, zero_stats}

pub record PacketReceiveStats : Type 0 where
  pub start_time : ℕ
  pub end_time : ℕ
  pub total_bytes_received : ℕ
  pub total_packets_received : ℕ
  pub failed_checksum_count : ℕ
  pub sequence_error_count : ℕ
  pub content_mismatch_count : ℕ
  pub expected_packet_counter : ℕ

unfoldable pub reset : ℕ → PacketReceiveStats
reset now = record {
  start_time = now;
  end_time = now;
  total_bytes_received = 0;
  total_packets_received = 0;
  failed_checksum_count = 0;
  sequence_error_count = 0;
  content_mismatch_count = 0;
  expected_packet_counter = 0;
}

-- The test for a corrupted payload that the checksum did not catch.
unfoldable pub content_mismatch : ParsedPacket → Bool
content_mismatch k =
    let expected = build_expected_payload k.header.packet_counter k.header.payload_size in
    length expected == length k.payload && not (text_eq k.payload expected)

unfoldable pub on_data_packet : ℕ → PacketReceiveStats → ParsedPacket → PacketReceiveStats
on_data_packet now s k = record s {
  end_time = now;
  total_bytes_received = s.total_bytes_received + k.total_packet_size;
  total_packets_received = s.total_packets_received + 1;
  content_mismatch_count =
      if content_mismatch k then s.content_mismatch_count + 1 else s.content_mismatch_count;
  sequence_error_count =
      if k.header.packet_counter == s.expected_packet_counter
      then s.sequence_error_count
      else s.sequence_error_count + 1;
  expected_packet_counter =
      ((if k.header.packet_counter == s.expected_packet_counter
          then s.expected_packet_counter
          else k.header.packet_counter)
        + 1)
      % 2 ^ 32;
}

unfoldable pub on_checksum_failure : PacketReceiveStats → PacketReceiveStats
on_checksum_failure s = record s { failed_checksum_count = s.failed_checksum_count + 1 }

module _ (f : Floats) where
  unfoldable pub snapshot : PacketReceiveStats → TestStats f.Real
  snapshot s =
      let stats : TestStats f.Real = record (zero_stats f) {
        total_packets_received = s.total_packets_received;
        failed_checksum_count = s.failed_checksum_count;
        sequence_error_count = s.sequence_error_count;
        content_mismatch_count = s.content_mismatch_count;
        total_bytes_received = s.total_bytes_received;
      } in
      let duration = f.seconds (s.end_time - s.start_time) in
      if ltb s.start_time s.end_time
      then (if f.is_positive duration
          then record stats {
            duration = duration;
            throughput_mbps = f.mbps s.total_bytes_received duration;
          }
          else record stats { duration = duration })
      else stats

-- Data packets in their order, each with the clock's reading.
unfoldable pub on_data_packets : PacketReceiveStats → List (ℕ × ParsedPacket) → PacketReceiveStats
unfolding on_data_packet
on_data_packets s [] = s
on_data_packets s ((now, k) ∷ ks) = on_data_packets (on_data_packet now s k) ks
