-- ===== src/EndToEnd/Transfer.antt =====
-- One phase over a network that delivers every byte in order, in pieces of its choice.
use my_iperf.Prelude.{
  ℕ, ◌+◌, ◌*◌, ◌≤◌, ◌≡◌, refl, sym, ap, ap₂, subst, ◌∙◌, List, map, flatten, true, arith, All,
  Bytes, is_empty, length,
}
use my_iperf.Prelude.Int.{pos, ◌*ℤ◌, ◌<ℤ◌}
use my_iperf.Protocol.{header_size}
use my_iperf.Parser.{PacketParseResult, ParsedPacket, make_parser, frame}
use my_iperf.Parser
use my_iperf.Parser.Chunks.{receive_chunks, receive_chunks-frames}
use my_iperf.Stats.{Floats}
use my_iperf.ReceiveStats.{PacketReceiveStats, on_data_packets, snapshot}
use my_iperf.ReceiveStats
use my_iperf.ReceiveStats.Sequence.{sequence_errors_iff}
use my_iperf.ReceiveStats.Totals.{on_data_packets-counts}
use my_iperf.Bus.{ControlMessageBus}
use my_iperf.Dispatcher.{Resume}
use my_iperf.Receiver.{
  PacketReceiver, make_receiver, start, get_stats, receiver_loop, receive_buffer_size,
}
use my_iperf.Receiver.Loop.{
  IsPiece, arrive, stamped_packets, map-stamped_packets, receiver_loop-data,
}
use my_iperf.Dispatcher.Routes.{IsData}
use my_iperf.Config.{Config}
use my_iperf.Generator.{PacketGenerator, Attempt, send_packets}
use my_iperf.Generator.Packets.{data_packets, data_packets-IsFrame}
use my_iperf.Generator.Sends.{IsBounded, IsSent, send_packets_complete}
use my_iperf.RunResult.{validate_receiver_stats}
use my_iperf.RunResult.Judged.{IsClean, validate-iff-IsClean}
use my_iperf.EndToEnd.Reading.{
  flatten-map-frame, data_packets-IsData, IsReading, data_packets-IsReading,
}

-- The receiver accepts payloads up to twice its buffer.
abbrev pub max_payload : ℕ
max_payload = receive_buffer_size * 2

abbrev ready : ℕ → ℕ → ControlMessageBus → PacketReceiver
ready made started bus = start started (make_receiver made bus)

snapshot_counters :
    (f : Floats) (s : PacketReceiveStats)
    → let t = snapshot f s in
      (t.total_packets_received ≡ s.total_packets_received)
      × (t.total_bytes_received ≡ s.total_bytes_received)
      × (t.failed_checksum_count ≡ s.failed_checksum_count)
      × (t.sequence_error_count ≡ s.sequence_error_count)
      × (t.content_mismatch_count ≡ s.content_mismatch_count)
unfolding snapshot
snapshot_counters f s = ground arith

size_positive :
    (config : Config) (count payload_size : ℕ)
    → IsBounded config count payload_size
    → pos 0 <ℤ config.packet_size
size_positive config count payload_size v = ground (arith, v.size)

pos-*ℤ-pos : (m n : ℕ) → pos m *ℤ pos n ≡ pos (m * n)
unfolding ◌*ℤ◌
pos-*ℤ-pos m n = ground arith

-- A reading of `count` packets from 0 on, counted from fresh statistics, makes a clean record.
reading-IsClean :
    (f : Floats) (config : Config) (count payload_size now : ℕ) (ks : List (ℕ × ParsedPacket))
    → IsBounded config count payload_size
    → IsReading 0 count (header_size + payload_size) ks
    → IsClean (snapshot f (on_data_packets (ReceiveStats.reset now) ks)) config
unfolding ReceiveStats.reset
reading-IsClean f config count payload_size now ks v r =
    let s = on_data_packets (ReceiveStats.reset now) ks in
    let t = on_data_packets-counts (ReceiveStats.reset now) ks in
    let q = (sequence_errors_iff (ReceiveStats.reset now) ks).1 r.consecutive in
    let c = snapshot_counters f s in
    let product = ap₂ ◌*ℤ◌ v.size v.packets ∙ pos-*ℤ-pos (header_size + payload_size) count in
    record {
      packets = λ _. ground (arith, v.packets, t, c, r.packets);
      bytes = λ _.
          (ap pos (
              let bytes : (snapshot f s).total_bytes_received
                  ≡ (header_size + payload_size) * count =
                omega (arith, t.1, c.1, r.sizes) in
              bytes)
            ∙ sym product);
      checksums = ground (arith, t, c);
      sequence = ground (arith, q, c);
      content = ground (arith, t, c, r.intact);
    }

module _ (f : Floats) (resume : Resume) (config : Config) (count payload_size : ℕ)
    (v : IsBounded config count payload_size) (fits : payload_size ≤ max_payload)
    (started stopped : ℕ) (g : PacketGenerator f.Real) (attempts : List Attempt)
    (enough : count ≤ length attempts) (sent : All (IsSent (header_size + payload_size)) attempts)
    (made listening : ℕ) (bus : ControlMessageBus) (cs : List (ℕ × Bytes)) (pieces : All IsPiece cs)
    (wire : flatten (map (λ c. c.1) cs)
      ≡ flatten (send_packets f config started stopped g attempts).packets) where
  abbrev packets : List ParsedPacket
  packets = data_packets config payload_size 0 count

  abbrev parsed : PacketParseResult
  parsed = record { packets = packets; checksum_failures = 0 }

  stream :
      receive_chunks (make_parser max_payload) (map (λ c. c.1) cs)
      ≡ (make_parser max_payload, parsed)
  stream =
      receive_chunks-frames max_payload packets (map (λ c. c.1) cs)
        (data_packets-IsFrame config payload_size max_payload 0 count (omega (arith, v.count_int))
          fits (omega arith))
        (wire
          ∙ ap flatten
              (send_packets_complete f config count payload_size started stopped g attempts v enough
                sent).0
          ∙ flatten-map-frame packets)

  reading :
      IsReading 0 count (header_size + payload_size) (stamped_packets (make_parser max_payload) cs)
  reading =
      data_packets-IsReading config payload_size 0 count _ (omega (arith, fits))
        (omega (arith, v.count_int))
        (map-stamped_packets (make_parser max_payload) cs ∙ ap (λ t. t.1.packets) stream)

  received_stats :
      (receiver_loop resume (ready made listening bus) (map arrive cs)).sinks.stats
      ≡ on_data_packets
          (ReceiveStats.reset listening)
          (stamped_packets (make_parser max_payload) cs)
  unfolding make_receiver start Parser.reset make_parser
  received_stats =
      ap (λ r. r.sinks.stats)
        (receiver_loop-data resume cs (ready made listening bus) refl refl pieces
          (ap (λ t. t.1.checksum_failures) stream)
          (subst (λ t. All IsData t.1.packets) (sym stream)
            (data_packets-IsData config payload_size 0 count)))

  -- A bounded run whose packets fit the receiver, sent in full over a network that cuts the byte stream
  -- as it likes, leaves a clean record with the receiver, which then has no reason to fail the phase.
  pub transfer-IsClean :
      let stats = get_stats f (receiver_loop resume (ready made listening bus) (map arrive cs)) in
      IsClean stats config × (is_empty (validate_receiver_stats stats config) ≡ true)
  unfolding get_stats
  transfer-IsClean =
      let clean =
        subst (λ s. IsClean (snapshot f s) config) (sym received_stats)
          (reading-IsClean f config count payload_size listening _ v reading) in
      (clean, (validate-iff-IsClean _ config (size_positive config count payload_size v)).1 clean)
