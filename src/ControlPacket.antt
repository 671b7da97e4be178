-- ===== src/ControlPacket.antt =====
-- MyIperf/src/myiperf/ControlProtocol.cpp: the names of the message types, and the packet that carries
-- a control message.
use my_iperf.Prelude.{
  ℕ, ◌+◌, ◌%◌, ◌^◌, ◌≤◌, ◌<◌, ◌≡◌, refl, ap, sym, List, [], ◌∷◌, ◌++◌, ◌∙◌, append-nil, Bytes, Text,
  text, length, flatten, arith, ◌==◌, if◌then◌else◌,
}
use my_iperf.Protocol.{
  MessageType, value, PacketHeader, encode_header, calculate_checksum, protocol_start_code,
  header_size,
}
use my_iperf.Protocol.Payload.{calculate_checksum-lt}
use my_iperf.Parser.{ParsedPacket, make_parser}
use my_iperf.Parser.Frames.{IsFrame}
use my_iperf.Parser.Chunks.{receive_chunks, receive_chunks-frames}

-- The switch over the types; any other byte is unknown.
unfoldable pub message_type_to_string : ℕ → Text
message_type_to_string type =
    if type == value MessageType.config_handshake
    then text "CONFIG_HANDSHAKE"
    else if type == value MessageType.config_ack
    then text "CONFIG_ACK"
    else if type == value MessageType.data_packet
    then text "DATA_PACKET"
    else if type == value MessageType.stats_exchange
    then text "STATS_EXCHANGE"
    else if type == value MessageType.stats_ack
    then text "STATS_ACK"
    else if type == value MessageType.test_fin
    then text "TEST_FIN"
    else if type == value MessageType.client_ready
    then text "CLIENT_READY"
    else if type == value MessageType.shutdown_ack
    then text "SHUTDOWN_ACK"
    else text "UNKNOWN"

unfoldable pub control_header : MessageType → Bytes → PacketHeader
control_header type payload = record {
  start_code = protocol_start_code;
  sender_id = 0;
  receiver_id = 0;
  message_type = value type;
  packet_counter = 0;
  payload_size = length payload % 2 ^ 32;
  checksum = calculate_checksum payload (length payload);
}

-- The bytes that `sendControlPacket` hands to the network.
unfoldable pub send_control_packet : MessageType → Bytes → Bytes
unfolding control_header
send_control_packet type payload = encode_header (control_header type payload) ++ payload

-- What the other side is to read.
unfoldable pub control_packet : MessageType → Bytes → ParsedPacket
unfolding control_header
control_packet type payload = record {
  header = control_header type payload;
  payload = payload;
  total_packet_size = header_size + length payload;
}

value_bound : (type : MessageType) → value type < 256
value_bound type = ground arith

module _ (max : ℕ) (type : MessageType) (payload : Bytes) where
  control_packet-IsFrame :
      length payload ≤ max → max < 2 ^ 32 → IsFrame max (control_packet type payload)
  unfolding control_packet control_header
  control_packet-IsFrame h m =
      let sum = calculate_checksum-lt payload (length payload) in
      let small : length payload % 2 ^ 32 ≡ length payload = omega arith in
      record {
        in_range = record {
          start_code_bound = omega arith;
          sender_id_bound = omega arith;
          receiver_id_bound = omega arith;
          message_type_bound = value_bound type;
          packet_counter_bound = omega arith;
          payload_size_bound = omega arith;
          checksum_bound = sum;
        };
        start = refl;
        size = small;
        fits = omega arith;
        sum = rw small refl;
        total = rw small refl;
      }

  -- A control message whose payload is within the receiver's limit is read as it was sent, however the
  -- network cuts its bytes.
  pub send_control_packet-received :
      (cs : List Bytes)
      → length payload ≤ max
      → max < 2 ^ 32
      → flatten cs ≡ send_control_packet type payload
      → receive_chunks (make_parser max) cs ≡ (
        make_parser max,
        record { packets = control_packet type payload ∷ []; checksum_failures = 0 },
      )
  unfolding send_control_packet control_packet
  send_control_packet-received cs h m cut =
      receive_chunks-frames max (control_packet type payload ∷ []) cs
        (control_packet-IsFrame h m, tt)
        (cut
          ∙ ap (λ t. encode_header (control_header type payload) ++ t) (sym (append-nil payload)))
