-- ===== src/Examples/Wire.antt =====
-- The wire format, the parser, the generator and the receiver.
use my_iperf.Prelude.{[], ◌∷◌, ◌++◌, true, ◌≡◌, refl, arith, take, drop, map, is_empty, to_string}
use my_iperf.Protocol.{
  encode_header, decode_header, calculate_checksum, verify_packet, build_expected_payload,
}
use my_iperf.Protocol.Header.{decode_header-encode_header}
use my_iperf.Parser.{PacketStreamParser, make_parser, drain_packets, no_packets, frame, round}
use my_iperf.Parser.Rounds.{Outcome, drain_packets-Outcome}
use my_iperf.Parser.Frames.{IsFrame, Rounds-frame_list, idle}
use my_iperf.Parser.Chunks.{receive_chunks, receive_chunks-frames, receive_chunks_any_cut}
use my_iperf.Generator.{send_packets}
use my_iperf.Generator.Packets.{data_packets}
use my_iperf.Generator.Sends.{send_packets_complete}
use my_iperf.Receiver.{make_receiver, start, receiver_loop}
use my_iperf.Receiver
use my_iperf.Receiver.Loop.{arrive}
use my_iperf.RunResult.Judged.{IsClean}
use my_iperf.RunResult.{validate_receiver_stats}
use my_iperf.EndToEnd.Transfer.{transfer-IsClean}
use my_iperf.Examples.Inputs.{ticks, small_run, generator, attempts, pieces, fin, fin_header, quiet}

payload_sample :
    build_expected_payload 12 12 ≡ 80 ∷ 97 ∷ 99 ∷ 107 ∷ 101 ∷ 116 ∷ 32 ∷ 49 ∷ 50 ∷ 46 ∷ 46 ∷ 46 ∷ []
unfolding build_expected_payload to_string
payload_sample = refl

decode_header-encode_header_example :
    decode_header (encode_header fin_header ++ 3 ∷ 4 ∷ []) ≡ fin_header
decode_header-encode_header_example =
    decode_header-encode_header fin_header (3 ∷ 4 ∷ []) (omega arith)

fin-IsFrame : IsFrame 100 fin
unfolding calculate_checksum
fin-IsFrame = record {
  in_range = omega arith;
  start = refl;
  size = refl;
  fits = omega arith;
  sum = refl;
  total = refl;
}

-- A garbage byte in front of a packet.
noisy : PacketStreamParser
noisy = record {
  max_payload_size = 131072;
  buffer = 9 ∷ (frame fin ++ 0xcd ∷ 0xab ∷ []);
  consecutive_failures = 99;
}

drain_noisy :
    drain_packets (record {
      max_payload_size = 100;
      buffer = frame fin ++ 0xcd ∷ [];
      consecutive_failures = 99;
    })
    ≡ (
      record { max_payload_size = 100; buffer = 0xcd ∷ []; consecutive_failures = 0 },
      record { packets = fin ∷ []; checksum_failures = 0 },
    )
unfolding drain_packets round encode_header decode_header verify_packet calculate_checksum
drain_noisy = refl

drain_packets-Outcome_example : Outcome noisy no_packets (drain_packets noisy)
drain_packets-Outcome_example = drain_packets-Outcome noisy

receive_chunks-frames_example :
    receive_chunks (make_parser 100) (take 3 (frame fin) ∷ drop 3 (frame fin) ∷ [])
    ≡ (make_parser 100, record { packets = fin ∷ []; checksum_failures = 0 })
unfolding encode_header
receive_chunks-frames_example =
    receive_chunks-frames 100 (fin ∷ []) (take 3 (frame fin) ∷ drop 3 (frame fin) ∷ [])
      (fin-IsFrame, tt) refl

receive_chunks_any_cut_example :
    receive_chunks (idle 100 [] 0) (take 3 (frame fin) ∷ drop 3 (frame fin) ∷ [])
    ≡ (idle 100 [] 0, record { packets = fin ∷ []; checksum_failures = 0 })
unfolding encode_header round
receive_chunks_any_cut_example =
    receive_chunks_any_cut (take 3 (frame fin) ∷ drop 3 (frame fin) ∷ []) (idle 100 [] 0)
      (idle 100 [] 0) (record { packets = fin ∷ []; checksum_failures = 0 }) refl
      (Rounds-frame_list 100 (fin ∷ []) (fin-IsFrame, tt)) refl

send_packets_complete_example :
    (send_packets ticks small_run 10 20 generator attempts).packets
    ≡ map frame (data_packets small_run 7 0 2)
send_packets_complete_example =
    (send_packets_complete ticks small_run 2 7 10 20 generator attempts
      (record {
        packets = refl;
        count_positive = omega arith;
        count_int = omega arith;
        size = refl;
      })
      (omega arith) ((refl, refl), ((refl, refl), ((refl, refl), tt)))).0

transfer-IsClean_example :
    let stats =
      Receiver.get_stats ticks
        (receiver_loop (λ a s. s) (start 5 (make_receiver 1 quiet)) (map arrive pieces)) in
    IsClean stats small_run × (is_empty (validate_receiver_stats stats small_run) ≡ true)
unfolding send_packets encode_header build_expected_payload calculate_checksum to_string
transfer-IsClean_example =
    transfer-IsClean ticks (λ a s. s) small_run 2 7
      (record {
        packets = refl;
        count_positive = omega arith;
        count_int = omega arith;
        size = refl;
      })
      (omega arith) 10 20 generator attempts (omega arith)
      ((refl, refl), ((refl, refl), ((refl, refl), tt))) 1 5 quiet pieces
      (omega arith, (omega arith, (omega arith, tt))) refl
