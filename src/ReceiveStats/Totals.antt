-- ===== src/ReceiveStats/Totals.antt =====
-- The totals after a run of data packets.
use my_iperf.Prelude.{
  ℕ, suc, ◌+◌, ◌≡◌, ◌≢◌, subst, sym, ap, List, [], ◌∷◌, Bool-cases, true, false, inl, inr, arith,
  length, text_eq, text_eq→≡, text_eq_refl, if◌then◌else◌, Bytes,
}
use my_iperf.Protocol.{build_expected_payload}
use my_iperf.Parser.{ParsedPacket}
use my_iperf.ReceiveStats.{PacketReceiveStats, on_data_packet, on_data_packets, content_mismatch}

abbrev pub total_sizes : List (ℕ × ParsedPacket) → ℕ
total_sizes [] = 0
total_sizes ((now, k) ∷ ks) = k.total_packet_size + total_sizes ks

abbrev pub mismatches : List (ℕ × ParsedPacket) → ℕ
mismatches [] = 0
mismatches ((now, k) ∷ ks) = if content_mismatch k then suc (mismatches ks) else mismatches ks

-- What the code counts, by its own test for a corrupted payload.
pub on_data_packets-counts :
    (s : PacketReceiveStats) (ks : List (ℕ × ParsedPacket))
    → let t = on_data_packets s ks in
      (t.total_packets_received ≡ s.total_packets_received + length ks)
      × (t.total_bytes_received ≡ s.total_bytes_received + total_sizes ks)
      × (t.content_mismatch_count ≡ s.content_mismatch_count + mismatches ks)
      × (t.failed_checksum_count ≡ s.failed_checksum_count)
      × (t.start_time ≡ s.start_time)
unfolding on_data_packets
on_data_packets-counts s [] = ground arith
on_data_packets-counts s ((now, k) ∷ ks) =
    ground (arith, on_data_packets-counts (on_data_packet now s k) ks)

-- What a sender writes into the packet of that counter and size.
abbrev pub pattern : ParsedPacket → Bytes
pattern k = build_expected_payload k.header.packet_counter k.header.payload_size

-- The payload has the length of the pattern and other bytes.
abbrev pub IsCorrupted : ParsedPacket → Type 0
IsCorrupted k = (length k.payload ≡ length (pattern k)) × (k.payload ≢ pattern k)

-- How many of the packets have a corrupted payload.
pub data Corrupted : List (ℕ × ParsedPacket) → ℕ → Type 0 where
  none_left : Corrupted [] 0
  corrupted :
      {now : ℕ} {k : ParsedPacket} {ks : List (ℕ × ParsedPacket)} {n : ℕ}
      → IsCorrupted k
      → Corrupted ks n
      → Corrupted ((now, k) ∷ ks) (suc n)
  intact :
      {now : ℕ} {k : ParsedPacket} {ks : List (ℕ × ParsedPacket)} {n : ℕ}
      → ¬ IsCorrupted k
      → Corrupted ks n
      → Corrupted ((now, k) ∷ ks) n

content_mismatch-true : (k : ParsedPacket) → content_mismatch k ≡ true → IsCorrupted k
unfolding content_mismatch
content_mismatch-true k h =
    let same = text_eq_refl k.payload in
    (ground arith, λ e. let same' = subst (λ p. text_eq k.payload p ≡ true) e same in ground arith)

content_mismatch-false : (k : ParsedPacket) → content_mismatch k ≡ false → ¬ IsCorrupted k
unfolding content_mismatch
content_mismatch-false k h (l, d) = elim (Bool-cases (text_eq k.payload (pattern k))) [
  | inl e ↦ d (text_eq→≡ k.payload (pattern k) e)
  | inr e ↦ ground arith
]

mismatches-Corrupted : (ks : List (ℕ × ParsedPacket)) → Corrupted ks (mismatches ks)
mismatches-Corrupted [] = none_left
mismatches-Corrupted ((now, k) ∷ ks) = elim (Bool-cases (content_mismatch k)) [
  | inl e ↦
      subst (λ n. Corrupted ((now, k) ∷ ks) n)
        (sym (ap (λ b. if b then suc (mismatches ks) else mismatches ks) e))
        (corrupted (content_mismatch-true k e) (mismatches-Corrupted ks))
  | inr e ↦
      subst (λ n. Corrupted ((now, k) ∷ ks) n)
        (sym (ap (λ b. if b then suc (mismatches ks) else mismatches ks) e))
        (intact (content_mismatch-false k e) (mismatches-Corrupted ks))
]

-- After any data packets, the packet count has gone up by their number, the byte count by the sum of
-- their sizes, and the mismatch count by the number of packets whose payload has the length of the
-- pattern that a sender writes, but other bytes; the checksum failures are untouched.
pub on_data_packets_totals :
    (s : PacketReceiveStats) (ks : List (ℕ × ParsedPacket))
    → let t = on_data_packets s ks in
      (n : ℕ) × Corrupted ks n
      × (t.content_mismatch_count ≡ s.content_mismatch_count + n)
      × (t.total_packets_received ≡ s.total_packets_received + length ks)
      × (t.total_bytes_received ≡ s.total_bytes_received + total_sizes ks)
      × (t.failed_checksum_count ≡ s.failed_checksum_count)
on_data_packets_totals s ks =
    let (packets, bytes, contents, checksums, start) = on_data_packets-counts s ks in
    (mismatches ks, mismatches-Corrupted ks, contents, packets, bytes, checksums)
