-- ===== src/Parser.antt =====
-- MyIperf/src/myiperf/PacketStreamParser.{h,cpp} and ParsedPacket.h: the receive buffer and the loop
-- that cuts it into packets. Log lines and `std::this_thread::yield` change no state and are left
-- out. Each round of the loop that goes on takes at least one byte from the buffer, so the length of
-- the buffer plus one is fuel enough.
pub mod Steps
pub mod Rounds
pub mod Frames
pub mod Chunks
pub mod Verified
use my_iperf.Prelude.{
  ℕ, zero, suc, ◌+◌, ◌≡◌, List, [], ◌∷◌, ◌++◌, Bool, true, false, Bytes, length, take, drop, leb,
  ltb, ◌==◌, if◌then◌else◌,
}
use my_iperf.Protocol.{
  PacketHeader, header_size, protocol_start_code, decode_header, verify_packet, encode_header,
}

pub record ParsedPacket : Type 0 where
  pub header : PacketHeader
  pub payload : Bytes
  pub total_packet_size : ℕ

pub record PacketParseResult : Type 0 where
  pub packets : List ParsedPacket
  pub checksum_failures : ℕ

pub record PacketStreamParser : Type 0 where
  pub max_payload_size : ℕ
  pub buffer : Bytes
  pub consecutive_failures : ℕ

abbrev pub max_consecutive_failures : ℕ
max_consecutive_failures = 100

-- The constructor.
unfoldable pub make_parser : ℕ → PacketStreamParser
make_parser max = record { max_payload_size = max; buffer = []; consecutive_failures = 0 }

unfoldable pub reset : PacketStreamParser → PacketStreamParser
reset p = record p { buffer = []; consecutive_failures = 0 }

unfoldable pub append : PacketStreamParser → Bytes → ℕ → PacketStreamParser
append p bytes bytes_received = record p { buffer = p.buffer ++ take bytes_received bytes }

-- `consecutiveFailures++`, back to 0 at the limit.
unfoldable pub count_failure : ℕ → ℕ
count_failure n = if leb max_consecutive_failures (n + 1) then 0 else n + 1

-- `buffer.erase(buffer.begin())` after a rejected packet.
unfoldable pub discard_byte : PacketStreamParser → PacketStreamParser
unfolding count_failure
discard_byte p = record p {
  buffer = drop 1 p.buffer;
  consecutive_failures = count_failure p.consecutive_failures;
}

abbrev pub State : Type 0
State = PacketStreamParser × PacketParseResult

-- How one round of the loop ends: `continue` with a new state, `break` with the state as it is, or
-- `break` after `buffer.clear()`.
pub data Round : Type 0 where
  again : PacketStreamParser → PacketParseResult → Round
  incomplete : Round
  oversized : Round

-- The packet that the header announces, cut from the front of the buffer.
abbrev pub front_packet : Bytes → PacketHeader → ParsedPacket
front_packet buffer h = record {
  header = h;
  payload = take h.payload_size (drop header_size buffer);
  total_packet_size = header_size + h.payload_size;
}

accept : PacketStreamParser → PacketHeader → PacketParseResult → Round
accept p h r =
    again
      (record p { buffer = drop (header_size + h.payload_size) p.buffer; consecutive_failures = 0 })
      (record r { packets = r.packets ++ front_packet p.buffer h ∷ [] })

check_packet : PacketStreamParser → PacketHeader → PacketParseResult → Round
unfolding accept discard_byte
check_packet p h r =
    if h.start_code == protocol_start_code
    then (if verify_packet h (drop header_size p.buffer)
        then accept p h r
        else again (discard_byte p) (record r { checksum_failures = r.checksum_failures + 1 }))
    else again (discard_byte p) r

-- One round of `while (!buffer.empty())`; an empty buffer is too short for a header.
unfoldable pub round : PacketStreamParser → PacketParseResult → Round
unfolding check_packet
round p r =
    let h = decode_header p.buffer in
    if ltb (length p.buffer) header_size
    then incomplete
    else if ltb p.max_payload_size h.payload_size
    then oversized
    else if ltb (length p.buffer) (header_size + h.payload_size)
    then incomplete
    else check_packet p h r

unfoldable pub drain : ℕ → PacketStreamParser → PacketParseResult → State
drain zero p r = (p, r)
drain (suc fuel) p r = elim (round p r) [
  | again p' r' ↦ drain fuel p' r'
  | incomplete ↦ (p, r)
  | oversized ↦ (record p { buffer = [] }, r)
]

abbrev pub no_packets : PacketParseResult
no_packets = record { packets = []; checksum_failures = 0 }

unfoldable pub drain_packets : PacketStreamParser → State
unfolding drain
drain_packets p = drain (suc (length p.buffer)) p no_packets

-- The bytes of a packet on the wire.
abbrev pub frame : ParsedPacket → Bytes
frame k = encode_header k.header ++ k.payload
