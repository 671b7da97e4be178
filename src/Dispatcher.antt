-- ===== src/Dispatcher.antt =====
-- MyIperf/src/myiperf/PacketDispatcher.{h,cpp}: parsed packets go to the counters or to the bus. A
-- delivery may resume a coroutine, which runs until it waits again and may use the bus and the
-- counters: `resume` is what it does to them.
pub mod Routes
use my_iperf.Prelude.{ℕ, List, [], ◌∷◌, Option, none, some, ◌==◌, if◌then◌else◌}
use my_iperf.Protocol.{MessageType, value}
use my_iperf.Parser.{ParsedPacket}
use my_iperf.Bus.{ControlMessageBus, deliver}
use my_iperf.ReceiveStats.{PacketReceiveStats, on_data_packet}

-- The two objects that a dispatcher refers to.
pub record Sinks : Type 0 where
  pub messages : ControlMessageBus
  pub stats : PacketReceiveStats

abbrev pub Resume : Type 0
Resume = ℕ → Sinks → Sinks

run_continuation : Resume → Option ℕ → Sinks → Sinks
run_continuation resume none s = s
run_continuation resume (some a) s = resume a s

unfoldable pub dispatch_one : Resume → ℕ → ParsedPacket → Sinks → Sinks
unfolding run_continuation
dispatch_one resume now k s =
    if k.header.message_type == value MessageType.data_packet
    then record s { stats = on_data_packet now s.stats k }
    else (let (continuation, messages) = deliver s.messages k.header k.payload in
        run_continuation resume continuation (record s { messages = messages }))

-- Each packet comes with the clock's reading at its turn.
unfoldable pub dispatch : Resume → Sinks → List (ℕ × ParsedPacket) → Sinks
unfolding dispatch_one
dispatch resume s [] = s
dispatch resume s ((now, k) ∷ ks) = dispatch resume (dispatch_one resume now k s) ks
