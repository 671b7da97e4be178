-- ===== src/Parser/Frames.antt =====
-- A buffer that begins with well-formed packets.
use my_iperf.Prelude.{
  ℕ, ◌+◌, ◌≤◌, ◌≡◌, refl, sym, ap, ◌∙◌, Bytes, List, [], ◌∷◌, ◌++◌, All, arith, length, drop, take,
  take-append_le, take-length, drop-append_le, drop-length, drop-drop, length-append, append_assoc,
  true,
}
use my_iperf.Protocol.{
  PacketHeader, InRange, header_size, protocol_start_code, encode_header, verify_packet,
  calculate_checksum,
}
use my_iperf.Protocol.Header.{length-encode_header, decode_header-encode_header}
use my_iperf.Protocol.Payload.{calculate_checksum-append}
use my_iperf.Parser.{
  PacketStreamParser, PacketParseResult, ParsedPacket, again, round, no_packets, front_packet,
}
use my_iperf.Parser.Rounds.{Rounds, stay, next}

-- What the sender puts on the wire, within the limit of the receiver.
pub record IsFrame (max : ℕ) (k : ParsedPacket) : Type 0 where
  pub in_range : InRange k.header
  pub start : k.header.start_code ≡ protocol_start_code
  pub size : k.header.payload_size ≡ length k.payload
  pub fits : k.header.payload_size ≤ max
  pub sum : k.header.checksum ≡ calculate_checksum k.payload k.header.payload_size
  pub total : k.total_packet_size ≡ header_size + k.header.payload_size

drop_header : (h : PacketHeader) (bs : Bytes) → drop header_size (encode_header h ++ bs) ≡ bs
unfolding encode_header
drop_header h bs = refl

module _ (max : ℕ) (k : ParsedPacket) (rest : Bytes) (f : IsFrame max k) where
  abbrev front : Bytes
  front = encode_header k.header ++ (k.payload ++ rest)

  take_payload : take k.header.payload_size (drop header_size front) ≡ k.payload
  take_payload =
      rw (drop_header k.header (k.payload ++ rest), f.size)
        (take-append_le (length k.payload) k.payload rest (omega arith) ∙ take-length k.payload)

  drop_frame : drop (header_size + k.header.payload_size) front ≡ rest
  drop_frame =
      sym (drop-drop header_size k.header.payload_size front)
      ∙ rw (drop_header k.header (k.payload ++ rest), f.size)
          (drop-append_le (length k.payload) k.payload rest (omega arith)
            ∙ ap (λ (t : Bytes). t ++ rest) (drop-length k.payload))

  length-front : length front ≡ header_size + k.header.payload_size + length rest
  length-front = omega (
    arith,
    f.size,
    length-append (encode_header k.header) (k.payload ++ rest),
    length-encode_header k.header,
    length-append k.payload rest,
  )

  front_packet-front : front_packet front k.header ≡ k
  front_packet-front = let e = f.total in rw take_payload (ground arith)

  verify-front : verify_packet k.header (drop header_size front) ≡ true
  unfolding verify_packet
  verify-front = rw (drop_header k.header (k.payload ++ rest)) (
      ground (
        arith,
        f.start,
        f.sum,
        f.size,
        calculate_checksum-append k.payload rest k.header.payload_size,
      ))

  round-front :
      (cf : ℕ) (r : PacketParseResult)
      → round (record { max_payload_size = max; buffer = front; consecutive_failures = cf }) r
        ≡ again
            (record { max_payload_size = max; buffer = rest; consecutive_failures = 0 })
            (record r { packets = r.packets ++ k ∷ [] })
  unfolding round
  round-front cf r = ground (
    arith,
    decode_header-encode_header k.header (k.payload ++ rest) f.in_range,
    length-front,
    f.start,
    f.fits,
    verify-front,
    drop_frame,
    front_packet-front,
  )

abbrev pub frames : List ParsedPacket → Bytes
frames [] = []
frames (k ∷ ks) = encode_header k.header ++ (k.payload ++ frames ks)

abbrev pub idle : ℕ → Bytes → ℕ → PacketStreamParser
idle max buffer cf = record { max_payload_size = max; buffer = buffer; consecutive_failures = cf }

abbrev pub and_packets : PacketParseResult → List ParsedPacket → PacketParseResult
and_packets r ks = record r { packets = r.packets ++ ks }

Rounds-frames :
    (max : ℕ) (k : ParsedPacket) (ks : List ParsedPacket) (cf : ℕ) (r : PacketParseResult)
    → All (IsFrame max) (k ∷ ks)
    → Rounds (idle max (frames (k ∷ ks)) cf) r (idle max [] 0) (and_packets r (k ∷ ks))
Rounds-frames max k [] cf r h = next (round-front max k [] h.0 cf r) stay
Rounds-frames max k (k' ∷ ks) cf r h = next (round-front max k (frames (k' ∷ ks)) h.0 cf r) (
    rw (← append_assoc r.packets (k ∷ []) (k' ∷ ks))
      (Rounds-frames max k' ks 0 (and_packets r (k ∷ [])) h.1))

-- A parser that has no failure behind it reads the concatenation of well-formed packets round by
-- round: it returns them in their order and keeps no byte.
pub Rounds-frame_list :
    (max : ℕ) (ks : List ParsedPacket)
    → All (IsFrame max) ks
    → Rounds
        (idle max (frames ks) 0)
        no_packets
        (idle max [] 0)
        (record { packets = ks; checksum_failures = 0 })
Rounds-frame_list max [] h = stay
Rounds-frame_list max (k ∷ ks) h = Rounds-frames max k ks 0 no_packets h
