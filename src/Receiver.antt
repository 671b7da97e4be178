-- ===== src/Receiver.antt =====
-- MyIperf/src/myiperf/PacketReceiver.{h,cpp}: the coroutine that feeds what the network receives to
-- the parser and dispatches the packets. What `receive` returns, or that it throws, is an `Arrival`;
-- the clock is read once for each.
pub mod Loop
use my_iperf.Prelude.{
  ℕ, zero, suc, ◌*◌, List, [], ◌∷◌, ◌++◌, map, Bool, true, false, length, Bytes, if◌then◌else◌,
}
use my_iperf.Parser.{
  PacketStreamParser, PacketParseResult, ParsedPacket, State, make_parser, append, drain_packets,
}
use my_iperf.Parser
use my_iperf.Stats.{Floats, TestStats}
use my_iperf.ReceiveStats.{PacketReceiveStats, on_checksum_failure, snapshot}
use my_iperf.ReceiveStats
use my_iperf.Bus.{ControlMessageBus}
use my_iperf.Dispatcher.{Sinks, Resume, dispatch}

abbrev pub receive_buffer_size : ℕ
receive_buffer_size = 65536

pub record PacketReceiver : Type 0 where
  pub running : Bool
  pub parser : PacketStreamParser
  pub has_dispatcher : Bool
  pub sinks : Sinks

-- The constructor; `messages` is the bus that `start` is given.
unfoldable pub make_receiver : ℕ → ControlMessageBus → PacketReceiver
make_receiver now messages = record {
  running = false;
  parser = make_parser (receive_buffer_size * 2);
  has_dispatcher = false;
  sinks = record { messages = messages; stats = ReceiveStats.reset now };
}

-- `start` up to the first round of the loop.
unfoldable pub start : ℕ → PacketReceiver → PacketReceiver
start now r = if r.running then r else record {
  running = true;
  parser = Parser.reset r.parser;
  has_dispatcher = true;
  sinks = record { messages = r.sinks.messages; stats = ReceiveStats.reset now };
}

unfoldable pub stop : PacketReceiver → PacketReceiver
stop r = if r.running then record r { running = false } else r

unfoldable pub get_stats : (f : Floats) → PacketReceiver → TestStats f.Real
get_stats f r = snapshot f r.sinks.stats

unfoldable pub reset_stats : ℕ → PacketReceiver → PacketReceiver
reset_stats now r = record r {
  sinks = record { messages = r.sinks.messages; stats = ReceiveStats.reset now };
}

pub data Arrival : Type 0 where
  received : ℕ → Bytes → Arrival
  receive_failed : Arrival

-- `for (i < checksumFailures) stats.onChecksumFailure();`
unfoldable pub count_failures : ℕ → PacketReceiveStats → PacketReceiveStats
count_failures zero s = s
count_failures (suc n) s = count_failures n (on_checksum_failure s)

abbrev pub stamped : ℕ → List ParsedPacket → List (ℕ × ParsedPacket)
stamped now = map (λ k. (now, k))

unfoldable pub handle_parsed : Resume → ℕ → PacketReceiver → State → PacketReceiver
handle_parsed resume now r (parser, parsed) =
    let sinks : Sinks = record {
      messages = r.sinks.messages;
      stats = count_failures parsed.checksum_failures r.sinks.stats;
    } in
    record r {
      parser = parser;
      sinks =
          if r.has_dispatcher then dispatch resume sinks (stamped now parsed.packets) else sinks;
    }

-- One round of the loop. Zero bytes mean that the connection was closed.
unfoldable pub receive_round : Resume → PacketReceiver → Arrival → PacketReceiver
unfolding handle_parsed stop
receive_round resume r receive_failed = stop r
receive_round resume r (received now []) =
    stop (handle_parsed resume now r (drain_packets r.parser))
receive_round resume r (received now (b ∷ bs)) =
    handle_parsed resume now r (drain_packets (append r.parser (b ∷ bs) (length (b ∷ bs))))

-- The loop stops where it is not running; else it waits for the next arrival.
unfoldable pub receiver_loop : Resume → PacketReceiver → List Arrival → PacketReceiver
unfolding receive_round
receiver_loop resume r [] = r
receiver_loop resume r (a ∷ arrivals) =
    let next = receiver_loop resume (receive_round resume r a) arrivals in
    if r.running then next else r
