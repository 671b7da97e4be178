-- ===== src/Parser/Verified.antt =====
-- What a call of `drainPackets` returns and what it leaves behind, for any bytes in the buffer.
use my_iperf.Prelude.{ℕ, ◌+◌, ◌≤◌, ◌<◌, ◌≡◌, List, [], ◌∷◌, All, length}
use my_iperf.Protocol.{
  PacketHeader, header_size, protocol_start_code, decode_header, calculate_checksum,
}
use my_iperf.Parser.{
  PacketStreamParser, PacketParseResult, ParsedPacket, State, incomplete, round, no_packets,
  front_packet, max_consecutive_failures,
}
use my_iperf.Parser.Rounds.{Rounds}

-- The checks that a returned packet has passed.
pub record IsVerified (max : ℕ) (k : ParsedPacket) : Type 0 where
  pub start : k.header.start_code ≡ protocol_start_code
  pub sum : k.header.checksum ≡ calculate_checksum k.payload k.header.payload_size
  pub size : length k.payload ≡ k.header.payload_size
  pub fits : k.header.payload_size ≤ max
  pub total : k.total_packet_size ≡ header_size + k.header.payload_size

abbrev pub sizes : List ParsedPacket → ℕ
sizes [] = 0
sizes (k ∷ ks) = k.total_packet_size + sizes ks

-- The packets in hand are verified, and the bytes of the packets, one byte for each checksum failure
-- and the bytes still buffered come to at most `total`.
pub record Accounts (max total : ℕ) (p : PacketStreamParser) (r : PacketParseResult) : Type 0 where
  pub limit : p.max_payload_size ≡ max
  pub failures : p.consecutive_failures < max_consecutive_failures
  pub verified : All (IsVerified max) r.packets
  pub bytes : sizes r.packets + r.checksum_failures + length p.buffer ≤ total

module _ (max total : ℕ) (p : PacketStreamParser) (r : PacketParseResult) where
  abbrev head : PacketHeader
  head = decode_header p.buffer

  abbrev packet : ParsedPacket
  packet = front_packet p.buffer head

-- The buffer cannot give another packet.
abbrev pub IsDrained : State → Type 0
IsDrained t = round t.0 no_packets ≡ incomplete
