-- ===== src/Generator.antt =====
-- MyIperf/src/myiperf/PacketGenerator.{h,cpp}: data packets and the loop that sends them. The network
-- answers each send with a number of bytes or an exception, and another thread may call `stop` while a
-- send or the delay after it is awaited: both are data of the attempt. Clock readings are arguments.
pub mod Packets
pub mod Sends
use my_iperf.Prelude.{
  ℕ, zero, ◌+◌, ◌-◌, ◌%◌, ◌^◌, List, [], ◌∷◌, ◌++◌, Bool, true, false, not, ◌&&◌, Option, none,
  some, Bytes, ltb, ◌==◌, if◌then◌else◌,
}
use my_iperf.Prelude.Int.{ℤ, pos, negsuc, to_size, ltb_ℤ, eqb_ℤ}
use my_iperf.Result.{Result, ok, throw}
use my_iperf.Protocol.{
  PacketHeader, MessageType, value, header_size, protocol_start_code, encode_header,
  calculate_checksum, build_expected_payload,
}
use my_iperf.Config.{Config, TestMode}
use my_iperf.Stats.{Floats, TestStats, zero_stats}

pub record PacketGenerator (Real : Type 0) : Type 0 where
  pub running : Bool
  pub total_bytes_sent : ℕ
  pub total_packets_sent : ℕ
  pub config : Config
  pub packet_counter : ℕ
  pub start_time : ℕ
  pub end_time : ℕ
  pub last_stats : TestStats Real

-- `static_cast<int>` of a `uint32_t`.
abbrev pub to_int : ℕ → ℤ
to_int n = if ltb n (2 ^ 31) then pos n else negsuc (2 ^ 32 - n - 1)

-- The underlying value of the mode, and that of the other side.
abbrev pub mode_id : TestMode → ℕ
mode_id TestMode.client = 0
mode_id TestMode.server = 1

abbrev pub other_mode : TestMode → TestMode
other_mode TestMode.client = TestMode.server
other_mode TestMode.server = TestMode.client

unfoldable pub data_header : Config → ℕ → ℕ → PacketHeader
data_header config packet_counter payload_size = record {
  start_code = protocol_start_code;
  sender_id = mode_id config.mode;
  receiver_id = mode_id (other_mode config.mode);
  message_type = value MessageType.data_packet;
  packet_counter = packet_counter;
  payload_size = payload_size % 2 ^ 32;
  checksum = calculate_checksum (build_expected_payload packet_counter payload_size) payload_size;
}

-- An attempt to send: what `send` returns, and when `stop` is called before the loop goes on, if it is.
pub record Attempt : Type 0 where
  pub result : Result ℕ
  pub stop_at : Option ℕ

module _ {R : Type 0} where
  unfoldable pub stop : ℕ → PacketGenerator R → PacketGenerator R
  stop now g = record g { running = false; end_time = now }

  -- The empty packet stands for a packet size that leaves no room for the header.
  unfoldable pub create_packet : PacketGenerator R → Bytes × PacketGenerator R
  unfolding data_header
  create_packet g =
      let packet_size = to_size g.config.packet_size in
      let payload_size = packet_size - header_size in
      if ltb packet_size header_size then ([], g) else (
        encode_header (data_header g.config g.packet_counter payload_size)
            ++ build_expected_payload g.packet_counter payload_size,
        record g { packet_counter = (g.packet_counter + 1) % 2 ^ 32 },
      )

  unfoldable pub should_continue_sending : PacketGenerator R → Bool
  should_continue_sending g =
      let num_packets = g.config.num_packets in
      if eqb_ℤ num_packets (pos 0) then true else ltb_ℤ (to_int g.packet_counter) num_packets

  unfoldable pub save_last_stats : TestStats R → PacketGenerator R → PacketGenerator R
  save_last_stats stats g = record g { last_stats = stats }

  unfoldable pub reset_stats : ℕ → PacketGenerator R → PacketGenerator R
  reset_stats now g = record g {
    total_bytes_sent = 0;
    total_packets_sent = 0;
    packet_counter = 0;
    start_time = now;
    end_time = 0;
  }

  -- The counters after a send of `bytes_sent` bytes, and a call of `stop` if there is one.
  after_send : ℕ → Option ℕ → PacketGenerator R → PacketGenerator R
  unfolding stop
  after_send bytes_sent stop_at g =
      let sent = record g {
        total_bytes_sent = g.total_bytes_sent + bytes_sent;
        total_packets_sent = g.total_packets_sent + 1;
      } in
      elim stop_at [ none ↦ sent | some now ↦ stop now sent ]

  may_send : PacketGenerator R → Bool
  unfolding should_continue_sending
  may_send g = g.running && should_continue_sending g

-- The packets handed to the network, whether the loop has ended (and does not wait for an attempt that
-- is still to come), and the generator.
pub record Sending (R : Type 0) : Type 0 where
  pub packets : List Bytes
  pub ended : Bool
  pub generator : PacketGenerator R

module _ {R : Type 0} where
  and_then : Bytes → Sending R → Sending R
  and_then packet s = record s { packets = packet ∷ s.packets }

  break_with : List Bytes → PacketGenerator R → Sending R
  break_with packets g = record { packets = packets; ended = true; generator = g }

  -- What follows one call of `send`; `rest` is the next round of the loop.
  after_attempt :
      Bytes → PacketGenerator R → Option ℕ → (PacketGenerator R → Sending R) → Result ℕ → Sending R
  unfolding and_then break_with after_send
  after_attempt packet g stop_at rest (throw e) = break_with (packet ∷ []) g
  after_attempt packet g stop_at rest (ok zero) = break_with (packet ∷ []) g
  after_attempt packet g stop_at rest (ok (ℕ.suc n)) =
      let g' = after_send (ℕ.suc n) stop_at g in
      let more = and_then packet (rest g') in
      if g'.running then more else break_with (packet ∷ []) g'

  attempt_packet : Bytes × PacketGenerator R → Attempt → (PacketGenerator R → Sending R) → Sending R
  unfolding after_attempt
  attempt_packet ([], g) a rest = break_with [] g
  attempt_packet (b ∷ bs, g) a rest = after_attempt (b ∷ bs) g a.stop_at rest a.result

  unfoldable pub send_loop : PacketGenerator R → List Attempt → Sending R
  unfolding may_send create_packet attempt_packet
  send_loop g [] = record { packets = []; ended = not (may_send g); generator = g }
  send_loop g (a ∷ attempts) =
      let sent = attempt_packet (create_packet g) a (λ g'. send_loop g' attempts) in
      if may_send g then sent else break_with [] g

  -- The end of the coroutine: a loop that was not stopped from outside ends the run itself.
  finish_sending : ℕ → Sending R → Sending R
  finish_sending now s =
      if s.ended && s.generator.running
      then record s { generator = record s.generator { running = false; end_time = now } }
      else s

module _ (f : Floats) where
  start_sending : Config → ℕ → PacketGenerator f.Real → PacketGenerator f.Real
  start_sending config now g = record g {
    config = config;
    running = true;
    total_bytes_sent = 0;
    total_packets_sent = 0;
    packet_counter = 0;
    start_time = now;
    last_stats = zero_stats f;
  }

  unfoldable pub send_packets :
      Config → ℕ → ℕ → PacketGenerator f.Real → List Attempt → Sending f.Real
  unfolding start_sending send_loop finish_sending
  send_packets config now later g attempts =
      finish_sending later (send_loop (start_sending config now g) attempts)

  unfoldable pub get_stats : PacketGenerator f.Real → TestStats f.Real
  get_stats g =
      let stats : TestStats f.Real = record (zero_stats f) {
        total_bytes_sent = g.total_bytes_sent;
        total_packets_sent = g.total_packets_sent;
      } in
      let duration = f.seconds (g.end_time - g.start_time) in
      if ltb g.start_time g.end_time
      then (if f.is_positive duration
          then record stats {
            duration = duration;
            throughput_mbps = f.mbps g.total_bytes_sent duration;
          }
          else record stats { duration = duration })
      else stats
