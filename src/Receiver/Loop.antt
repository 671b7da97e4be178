-- ===== src/Receiver/Loop.antt =====
-- Receiving a stream of data packets piece by piece.
use my_iperf.Prelude.{
  ℕ, zero, suc, ◌<◌, ◌≡◌, refl, sym, ap, ap₂, ◌∙◌, List, [], ◌∷◌, ◌++◌, map, true, arith, All,
  length, Bytes,
}
use mathlib.Core.List.{map-append}
use my_iperf.Parser.{PacketStreamParser, ParsedPacket, State}
use my_iperf.Parser.Chunks.{receive_chunk, receive_chunks}
use my_iperf.ReceiveStats.{PacketReceiveStats, on_data_packet, on_data_packets}
use my_iperf.Dispatcher.{Resume}
use my_iperf.Dispatcher.Routes.{IsData, dispatch-data}
use my_iperf.Receiver.{
  PacketReceiver, Arrival, received, count_failures, stamped, handle_parsed, receive_round,
  receiver_loop,
}

-- A piece that the network hands over has at least one byte.
abbrev pub IsPiece : ℕ × Bytes → Type 0
IsPiece c = (0 < length c.1)

abbrev pub arrive : ℕ × Bytes → Arrival
arrive c = received c.0 c.1

-- The packets of each piece, with the clock's reading at its arrival.
unfoldable pub stamped_packets : PacketStreamParser → List (ℕ × Bytes) → List (ℕ × ParsedPacket)
stamped_packets p [] = []
stamped_packets p ((now, c) ∷ cs) =
    stamped now (receive_chunk p c).1.packets ++ stamped_packets (receive_chunk p c).0 cs

map-stamped : (now : ℕ) (ks : List ParsedPacket) → map (λ x. x.1) (stamped now ks) ≡ ks
map-stamped now [] = refl
map-stamped now (k ∷ ks) = ap (◌∷◌ k) (map-stamped now ks)

-- Without their times, these are the packets that the parser returns for the pieces.
pub map-stamped_packets :
    (p : PacketStreamParser) (cs : List (ℕ × Bytes))
    → map (λ x. x.1) (stamped_packets p cs) ≡ (receive_chunks p (map (λ c. c.1) cs)).1.packets
unfolding stamped_packets receive_chunks
map-stamped_packets p [] = refl
map-stamped_packets p ((now, c) ∷ cs) =
    map-append (λ x. x.1) (stamped now (receive_chunk p c).1.packets)
      (stamped_packets (receive_chunk p c).0 cs)
    ∙ ap₂ ◌++◌ (map-stamped now (receive_chunk p c).1.packets)
        (map-stamped_packets (receive_chunk p c).0 cs)

All-stamped :
    (now : ℕ) (ks : List ParsedPacket) → All IsData ks → All (λ k. IsData k.1) (stamped now ks)
All-stamped now [] h = tt
All-stamped now (k ∷ ks) h = (h.0, All-stamped now ks h.1)

All-split : (ks ls : List ParsedPacket) → All IsData (ks ++ ls) → All IsData ks × All IsData ls
All-split [] ls h = (tt, h)
All-split (k ∷ ks) ls h = let r = All-split ks ls h.1 in ((h.0, r.0), r.1)

on_data_packets-append :
    (s : PacketReceiveStats) (ks ls : List (ℕ × ParsedPacket))
    → on_data_packets s (ks ++ ls) ≡ on_data_packets (on_data_packets s ks) ls
unfolding on_data_packets
on_data_packets-append s [] ls = refl
on_data_packets-append s ((now, k) ∷ ks) ls = on_data_packets-append (on_data_packet now s k) ks ls

-- The receiver after some pieces of data packets only.
abbrev pub counted : PacketReceiver → PacketStreamParser → List (ℕ × ParsedPacket) → PacketReceiver
counted r p ks = record r {
  parser = p;
  sinks = record { messages = r.sinks.messages; stats = on_data_packets r.sinks.stats ks };
}

count_failures-zero : (n : ℕ) (s : PacketReceiveStats) → n ≡ 0 → count_failures n s ≡ s
unfolding count_failures
count_failures-zero zero s h = refl
count_failures-zero (suc n) s h = absurd (omega arith)

loop_step :
    (resume : Resume) (r : PacketReceiver) (now : ℕ) (c : Bytes) (arrivals : List Arrival)
    → r.running ≡ true
    → 0 < length c
    → receiver_loop resume r (received now c ∷ arrivals)
      ≡ receiver_loop resume (handle_parsed resume now r (receive_chunk r.parser c)) arrivals
unfolding receiver_loop receive_round receive_chunk
loop_step resume r now [] arrivals run h = absurd (omega arith)
loop_step resume r now (b ∷ bs) arrivals run h = rw run

handle_parsed-data :
    (resume : Resume) (now : ℕ) (r : PacketReceiver) (t : State)
    → r.has_dispatcher ≡ true
    → t.1.checksum_failures ≡ 0
    → All IsData t.1.packets
    → handle_parsed resume now r t ≡ counted r t.0 (stamped now t.1.packets)
unfolding handle_parsed
handle_parsed-data resume now r t d z h = ground (
  arith,
  count_failures-zero t.1.checksum_failures r.sinks.stats,
  dispatch-data resume r.sinks (stamped now t.1.packets) (All-stamped now t.1.packets h),
)

-- Pieces of a stream that holds nothing but intact data packets.
pub receiver_loop-data :
    (resume : Resume) (cs : List (ℕ × Bytes)) (r : PacketReceiver)
    → r.running ≡ true
    → r.has_dispatcher ≡ true
    → All IsPiece cs
    → let t = receive_chunks r.parser (map (λ c. c.1) cs) in
      t.1.checksum_failures ≡ 0
      → All IsData t.1.packets
      → receiver_loop resume r (map arrive cs) ≡ counted r t.0 (stamped_packets r.parser cs)
unfolding receiver_loop stamped_packets receive_chunks on_data_packets
receiver_loop-data resume [] r run d pieces z h = refl
receiver_loop-data resume ((now, c) ∷ cs) r run d pieces z h =
    let first = receive_chunk r.parser c in
    let rest = receive_chunks first.0 (map (λ c'. c'.1) cs) in
    let both = All-split first.1.packets rest.1.packets h in
    let r' = counted r first.0 (stamped now first.1.packets) in
    loop_step resume r now c (map arrive cs) run pieces.0
    ∙ ap (λ x. receiver_loop resume x (map arrive cs))
        (handle_parsed-data resume now r first d (omega arith) both.0)
    ∙ receiver_loop-data resume cs r' run d pieces.1 (omega arith) both.1
    ∙ ap
        (λ s. record r {
          parser = rest.0;
          sinks = record { messages = r.sinks.messages; stats = s };
        })
        (sym (
          on_data_packets-append r.sinks.stats (stamped now first.1.packets)
            (stamped_packets first.0 cs)))
