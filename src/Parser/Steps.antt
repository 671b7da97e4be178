-- ===== src/Parser/Steps.antt =====
-- One round of the parser's loop: what it does to the buffer, and what a longer buffer changes.
use my_iperf.Prelude.{
  ◌+◌, ◌≤◌, ◌<◌, ◌≡◌, Bytes, ◌++◌, arith, length, drop, length-drop, length-append, drop-append_le,
  take-append_le,
}
use my_iperf.Protocol.{PacketHeader, header_size, decode_header, verify_packet}
use my_iperf.Protocol.Header.{decode_header-append}
use my_iperf.Protocol.Payload.{calculate_checksum-append}
use my_iperf.Parser.{PacketStreamParser, PacketParseResult, again, oversized, round, front_packet}

-- Every round that goes on takes at least one byte from the buffer.
pub round_shrinks :
    (p : PacketStreamParser) (r : PacketParseResult) (p' : PacketStreamParser)
    (r' : PacketParseResult)
    → round p r ≡ again p' r'
    → length p'.buffer < length p.buffer
unfolding round
round_shrinks p r p' r' h = ground (
  arith,
  length-drop 1 p.buffer,
  length-drop (header_size + (decode_header p.buffer).payload_size) p.buffer,
)

abbrev pub extend : PacketStreamParser → Bytes → PacketStreamParser
extend p c = record p { buffer = p.buffer ++ c }

module _ (p : PacketStreamParser) (r : PacketParseResult) (c : Bytes) where
  abbrev here : PacketHeader
  here = decode_header p.buffer

  verify_packet-append :
      header_size + here.payload_size ≤ length p.buffer
      → verify_packet here (drop header_size (p.buffer ++ c))
        ≡ verify_packet here (drop header_size p.buffer)
  unfolding verify_packet
  verify_packet-append h = rw (drop-append_le header_size p.buffer c (omega arith)) (
      rw (
        calculate_checksum-append (drop header_size p.buffer) c here.payload_size
          (omega (arith, length-drop header_size p.buffer))))

  front_packet-append :
      header_size + here.payload_size ≤ length p.buffer
      → front_packet (p.buffer ++ c) here ≡ front_packet p.buffer here
  front_packet-append h = rw (drop-append_le header_size p.buffer c (omega arith)) (
      rw (
        take-append_le here.payload_size (drop header_size p.buffer) c
          (omega (arith, length-drop header_size p.buffer))))

  -- A round that goes on does the same with more bytes behind the buffer.
  pub round-again_extend :
      (p' : PacketStreamParser) (r' : PacketParseResult)
      → round p r ≡ again p' r'
      → round (extend p c) r ≡ again (extend p' c) r'
  unfolding round
  round-again_extend p' r' h = ground (
    arith,
    length-append p.buffer c,
    decode_header-append p.buffer c,
    verify_packet-append,
    front_packet-append,
    drop-append_le 1 p.buffer c,
    drop-append_le (header_size + here.payload_size) p.buffer c,
  )

  -- So does a round that finds an oversized payload announced.
  pub round-oversized_extend : round p r ≡ oversized → round (extend p c) r ≡ oversized
  unfolding round
  round-oversized_extend h =
      ground (arith, length-append p.buffer c, decode_header-append p.buffer c)
