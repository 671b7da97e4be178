-- ===== src/Generator/Packets.antt =====
-- The packets that the generator makes, as the receiver is to read them.
use my_iperf.Prelude.{
  ℕ, zero, suc, ◌+◌, ◌%◌, ◌^◌, ◌≤◌, ◌<◌, ◌≡◌, refl, ap, List, [], ◌∷◌, All, arith,
}
use my_iperf.Protocol.{header_size, build_expected_payload, calculate_checksum}
use my_iperf.Protocol.Payload.{calculate_checksum-lt, length-build_expected_payload}
use my_iperf.Parser.{ParsedPacket}
use my_iperf.Parser.Frames.{IsFrame}
use my_iperf.Config.{Config, TestMode}
use my_iperf.Generator.{data_header, mode_id, other_mode}

-- The data packet with a given counter and payload size.
unfoldable pub data_packet : Config → ℕ → ℕ → ParsedPacket
data_packet config counter payload_size = record {
  header = data_header config counter payload_size;
  payload = build_expected_payload counter payload_size;
  total_packet_size = header_size + payload_size;
}

-- `count` data packets with counters from `first` on.
unfoldable pub data_packets : Config → ℕ → ℕ → ℕ → List ParsedPacket
data_packets config payload_size first zero = []
data_packets config payload_size first (suc count) =
    data_packet config first payload_size ∷ data_packets config payload_size (suc first) count

mode_id-lt : (m : TestMode) → mode_id m < 256
mode_id-lt TestMode.client = omega arith
mode_id-lt TestMode.server = omega arith

pub data_packet-IsFrame :
    (config : Config) (counter payload_size max : ℕ)
    → counter < 2 ^ 32
    → payload_size ≤ max
    → max < 2 ^ 32
    → IsFrame max (data_packet config counter payload_size)
unfolding data_packet data_header
data_packet-IsFrame config counter payload_size max h fits small = record {
  in_range = record {
    start_code_bound = omega arith;
    sender_id_bound = mode_id-lt config.mode;
    receiver_id_bound = mode_id-lt (other_mode config.mode);
    message_type_bound = omega arith;
    packet_counter_bound = h;
    payload_size_bound = omega arith;
    checksum_bound =
        calculate_checksum-lt (build_expected_payload counter payload_size) payload_size;
  };
  start = refl;
  size = omega (arith, length-build_expected_payload counter payload_size);
  fits = omega arith;
  sum =
      let e : payload_size ≡ payload_size % 2 ^ 32 = omega arith in
      ap (calculate_checksum (build_expected_payload counter payload_size)) e;
  total = omega arith;
}

pub data_packets-IsFrame :
    (config : Config) (payload_size max first count : ℕ)
    → first + count ≤ 2 ^ 32
    → payload_size ≤ max
    → max < 2 ^ 32
    → All (IsFrame max) (data_packets config payload_size first count)
unfolding data_packets
data_packets-IsFrame config payload_size max first zero h fits small = tt
data_packets-IsFrame config payload_size max first (suc count) h fits small = (
  data_packet-IsFrame config first payload_size max (omega arith) fits small,
  data_packets-IsFrame config payload_size max (suc first) count (omega arith) fits small,
)
