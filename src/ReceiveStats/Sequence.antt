-- ===== src/ReceiveStats/Sequence.antt =====
-- When a packet counts as a sequence error.
use my_iperf.Prelude.{ℕ, ◌+◌, ◌%◌, ◌^◌, ◌≤◌, ◌≡◌, ◌↔◌, refl, List, [], ◌∷◌, arith}
use my_iperf.Parser.{ParsedPacket}
use my_iperf.ReceiveStats.{PacketReceiveStats, on_data_packet, on_data_packets}

-- Packet i has the counter `expected + i`.
abbrev pub IsConsecutive : ℕ → List (ℕ × ParsedPacket) → Type 0
IsConsecutive expected [] = Unit
IsConsecutive expected ((now, k) ∷ ks) =
    (k.header.packet_counter ≡ expected) × IsConsecutive ((expected + 1) % 2 ^ 32) ks

sequence_error_count_mono :
    (s : PacketReceiveStats) (ks : List (ℕ × ParsedPacket))
    → s.sequence_error_count ≤ (on_data_packets s ks).sequence_error_count
unfolding on_data_packets
sequence_error_count_mono s [] = omega arith
sequence_error_count_mono s ((now, k) ∷ ks) =
    ground (arith, sequence_error_count_mono (on_data_packet now s k) ks)

-- A run of data packets adds no sequence error exactly if their counters are consecutive and begin at
-- the expected one.
pub sequence_errors_iff :
    (s : PacketReceiveStats) (ks : List (ℕ × ParsedPacket))
    → ((on_data_packets s ks).sequence_error_count ≡ s.sequence_error_count)
      ↔ IsConsecutive s.expected_packet_counter ks
unfolding on_data_packets
sequence_errors_iff s [] = (λ h. tt, λ h. refl)
sequence_errors_iff s ((now, k) ∷ ks) =
    let ih = sequence_errors_iff (on_data_packet now s k) ks in
    let up = sequence_error_count_mono (on_data_packet now s k) ks in
    (λ h. ground (arith, ih.0, up), λ h. ground (arith, ih.1, up))
