-- ===== src/Protocol.antt =====
-- MyIperf/include/myiperf/Protocol.h: message types, the packed packet header as bytes on the wire
-- (little-endian, as `memcpy` copies it on the supported hosts), the checksum, the packet check and
-- the deterministic payload.
pub mod Header
pub mod Payload
use my_iperf.Prelude.{
  ℕ, zero, suc, ◌+◌, ◌-◌, ◌*◌, ◌/◌, ◌%◌, ◌^◌, ◌≤◌, ◌<◌, ◌≡◌, List, [], ◌∷◌, ◌++◌, Bool, false,
  Bytes, Text, text, to_string, length, get_or, take, drop, replicate, ltb, ◌==◌, if◌then◌else◌,
}

pub data MessageType : Type 0 where
  config_handshake config_ack data_packet stats_exchange stats_ack test_fin : MessageType
  client_ready shutdown_ack : MessageType

-- The underlying `uint8_t`. A received header may hold any byte here, so headers store the byte.
abbrev pub value : MessageType → ℕ
value MessageType.config_handshake = 0
value MessageType.config_ack = 1
value MessageType.data_packet = 2
value MessageType.stats_exchange = 3
value MessageType.stats_ack = 4
value MessageType.test_fin = 5
value MessageType.client_ready = 6
value MessageType.shutdown_ack = 7

pub record PacketHeader : Type 0 where
  pub start_code : ℕ
  pub sender_id : ℕ
  pub receiver_id : ℕ
  pub message_type : ℕ
  pub packet_counter : ℕ
  pub payload_size : ℕ
  pub checksum : ℕ

-- `sizeof(PacketHeader)` under `#pragma pack(push, 1)`.
abbrev pub header_size : ℕ
header_size = 17

abbrev pub protocol_start_code : ℕ
protocol_start_code = 0xabcd

abbrev pub le2 : ℕ → Bytes
le2 n = (n % 256) ∷ (n / 256 % 256) ∷ []

abbrev pub le4 : ℕ → Bytes
le4 n = (n % 256) ∷ (n / 256 % 256) ∷ (n / 65536 % 256) ∷ (n / 16777216 % 256) ∷ []

abbrev pub from_le : Bytes → ℕ
from_le [] = 0
from_le (b ∷ bs) = b + 256 * from_le bs

-- The bytes that `memcpy` takes from a header, in the order of its fields.
unfoldable pub encode_header : PacketHeader → Bytes
encode_header h =
    le2 h.start_code
    ++ (h.sender_id ∷ h.receiver_id ∷ h.message_type ∷ [])
    ++ le4 h.packet_counter
    ++ le4 h.payload_size
    ++ le4 h.checksum

-- `memcpy` of the first 17 bytes of a buffer into a header.
unfoldable pub decode_header : Bytes → PacketHeader
decode_header b = record {
  start_code = from_le (take 2 b);
  sender_id = get_or b 2 0;
  receiver_id = get_or b 3 0;
  message_type = get_or b 4 0;
  packet_counter = from_le (take 4 (drop 5 b));
  payload_size = from_le (take 4 (drop 9 b));
  checksum = from_le (take 4 (drop 13 b));
}

-- `sum` is a `uint32_t`; the loop goes over the first `size` bytes.
checksum_from : ℕ → Bytes → ℕ
checksum_from sum [] = sum
checksum_from sum (b ∷ bs) = checksum_from ((sum + b) % 2 ^ 32) bs

unfoldable pub calculate_checksum : Bytes → ℕ → ℕ
unfolding checksum_from
calculate_checksum bytes size = checksum_from 0 (take size bytes)

unfoldable pub verify_packet : PacketHeader → Bytes → Bool
verify_packet h payload =
    if h.start_code == protocol_start_code
    then h.checksum == calculate_checksum payload h.payload_size
    else false

-- `std::string::resize`.
abbrev pub resize : Text → ℕ → ℕ → Text
resize s n c = take n s ++ replicate (n - length s) c

unfoldable pub build_expected_payload : ℕ → ℕ → Text
build_expected_payload packet_counter payload_size =
    let payload = text "Packet " ++ to_string packet_counter in
    if ltb (length payload) payload_size
    then resize payload payload_size b'.'
    else resize payload payload_size 0

-- Every field lies in the range of its C++ type.
pub record InRange (h : PacketHeader) : Type 0 where
  pub start_code_bound : h.start_code < 2 ^ 16
  pub sender_id_bound : h.sender_id < 256
  pub receiver_id_bound : h.receiver_id < 256
  pub message_type_bound : h.message_type < 256
  pub packet_counter_bound : h.packet_counter < 2 ^ 32
  pub payload_size_bound : h.payload_size < 2 ^ 32
  pub checksum_bound : h.checksum < 2 ^ 32
