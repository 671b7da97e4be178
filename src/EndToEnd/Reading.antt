-- ===== src/EndToEnd/Reading.antt =====
-- The generator's packets as the receiving side counts them.
use my_iperf.Prelude.{
  ℕ, zero, suc, ◌+◌, ◌*◌, ◌%◌, ◌^◌, ◌<◌, ◌≡◌, refl, ap, ◌∙◌, List, [], ◌∷◌, ◌++◌, map, flatten,
  false, arith, All, length, text_eq_refl, append_assoc, subst,
}
use my_iperf.Protocol.{header_size, build_expected_payload, encode_header}
use my_iperf.Parser.{ParsedPacket, frame}
use my_iperf.Parser.Frames.{frames}
use my_iperf.ReceiveStats.{content_mismatch}
use my_iperf.ReceiveStats.Sequence.{IsConsecutive}
use my_iperf.ReceiveStats.Totals.{total_sizes, mismatches}
use my_iperf.Dispatcher.Routes.{IsData}
use my_iperf.Config.{Config}
use my_iperf.Generator.{data_header}
use my_iperf.Generator.Packets.{data_packet, data_packets}

pub flatten-map-frame : (ks : List ParsedPacket) → flatten (map frame ks) ≡ frames ks
flatten-map-frame [] = refl
flatten-map-frame (k ∷ ks) =
    append_assoc (encode_header k.header) k.payload (flatten (map frame ks))
    ∙ ap (λ x. encode_header k.header ++ (k.payload ++ x)) (flatten-map-frame ks)

pub data_packets-IsData :
    (config : Config) (payload_size first count : ℕ)
    → All IsData (data_packets config payload_size first count)
unfolding data_packets data_packet data_header
data_packets-IsData config payload_size first zero = tt
data_packets-IsData config payload_size first (suc count) =
    (refl, data_packets-IsData config payload_size (suc first) count)

data_packet-intact :
    (config : Config) (counter payload_size : ℕ)
    → payload_size < 2 ^ 32
    → content_mismatch (data_packet config counter payload_size) ≡ false
unfolding data_packet data_header content_mismatch
data_packet-intact config counter payload_size h =
    let e : payload_size % 2 ^ 32 ≡ payload_size = omega arith in
    rw e (ground (arith, text_eq_refl (build_expected_payload counter payload_size)))

-- What the counters see of a run of the generator's packets, each at some time.
pub record IsReading (first count size : ℕ) (ks : List (ℕ × ParsedPacket)) : Type 0 where
  pub consecutive : IsConsecutive first ks
  pub sizes : total_sizes ks ≡ count * size
  pub intact : mismatches ks ≡ 0
  pub packets : length ks ≡ count

pub data_packets-IsReading :
    (config : Config) (payload_size first count : ℕ) (ks : List (ℕ × ParsedPacket))
    → payload_size < 2 ^ 32
    → first + count < 2 ^ 32
    → map (λ x. x.1) ks ≡ data_packets config payload_size first count
    → IsReading first count (header_size + payload_size) ks
unfolding data_packets data_packet data_header
data_packets-IsReading config payload_size first zero [] small h e = record {
  consecutive = tt;
  sizes = omega arith;
  intact = refl;
  packets = refl;
}
data_packets-IsReading config payload_size first zero (k ∷ ks) small h e = cc
data_packets-IsReading config payload_size first (suc count) [] small h e = cc
data_packets-IsReading config payload_size first (suc count) ((now, k) ∷ ks) small h e =
    let head : k ≡ data_packet config first payload_size = cc in
    let tail : map (λ x. x.1) ks ≡ data_packets config payload_size (suc first) count = cc in
    let rest =
      data_packets-IsReading config payload_size (suc first) count ks small (omega arith) tail in
    let step : suc first ≡ (first + 1) % 2 ^ 32 = omega arith in
    record {
      consecutive = (
        ap (λ (x : ParsedPacket). x.header.packet_counter) head,
        subst (λ n. IsConsecutive n ks) step rest.consecutive,
      );
      sizes = omega (arith, ap (λ (x : ParsedPacket). x.total_packet_size) head, rest.sizes);
      intact =
          rw (ap content_mismatch head ∙ data_packet-intact config first payload_size small)
            rest.intact;
      packets = omega (arith, rest.packets);
    }
