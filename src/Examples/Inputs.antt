-- ===== src/Examples/Inputs.antt =====
-- Inputs that the tests share.
use my_iperf.Prelude.{ℕ, List, [], ◌∷◌, true, false, none, Bytes, text, flatten, take, drop}
use my_iperf.Prelude.Int.{pos}
use my_iperf.Result.{ok}
use my_iperf.Protocol.{PacketHeader, MessageType, value, protocol_start_code}
use my_iperf.Parser.{ParsedPacket}
use my_iperf.Config.{Config, TestMode, tcp}
use my_iperf.Stats.{Floats, zero_stats}
use my_iperf.Generator.{PacketGenerator, Attempt, send_packets}
use my_iperf.Bus.{ControlMessageBus, wait_for}

-- Floating point numbers that are only ever compared with zero.
abbrev pub ticks : Floats
ticks = record {
  Real = ℕ;
  zero_real = 0;
  seconds = λ t. t;
  is_positive = λ x. true;
  mbps = λ bytes t. bytes;
}

-- Two packets of 24 bytes.
abbrev pub small_run : Config
small_run = record {
  packet_size = pos 24;
  num_packets = pos 2;
  send_interval_ms = pos 0;
  protocol = tcp;
  target_ip = text "127.0.0.1";
  port = pos 5201;
  mode = TestMode.client;
  save_logs = false;
  handshake_timeout_ms = pos 5000;
}

abbrev pub generator : PacketGenerator ℕ
generator = record {
  running = false;
  total_bytes_sent = 0;
  total_packets_sent = 0;
  config = small_run;
  packet_counter = 0;
  start_time = 0;
  end_time = 0;
  last_stats = zero_stats ticks;
}

abbrev pub taken : Attempt
taken = record { result = ok 24; stop_at = none }

abbrev pub attempts : List Attempt
attempts = taken ∷ taken ∷ taken ∷ []

abbrev pub wire : Bytes
wire = flatten (send_packets ticks small_run 10 20 generator attempts).packets

-- Cut inside the first header and inside the second packet.
abbrev pub pieces : List (ℕ × Bytes)
pieces = (11, take 10 wire) ∷ (12, take 20 (drop 10 wire)) ∷ (13, drop 30 wire) ∷ []

abbrev pub fin_header : PacketHeader
fin_header = record {
  start_code = protocol_start_code;
  sender_id = 0;
  receiver_id = 0;
  message_type = value MessageType.test_fin;
  packet_counter = 0;
  payload_size = 2;
  checksum = 7;
}

abbrev pub fin : ParsedPacket
fin = record { header = fin_header; payload = 3 ∷ 4 ∷ []; total_packet_size = 19 }

-- Nobody waits; awaiter 1 is for TEST_FIN, every other for CONFIG_ACK.
abbrev pub quiet : ControlMessageBus
quiet = record {
  pending_waits = [];
  buffered_messages = λ t. [];
  awaiters = λ a. elim a [ ℕ.suc n ↦ wait_for 5 (pos 5000) | ℕ.zero ↦ wait_for 1 (pos 5000) ];
}
