-- ===== src/Generator/Sends.antt =====
-- What a run of the generator puts on the wire.
use my_iperf.Prelude.{
  ℕ, zero, suc, ◌+◌, ◌*◌, ◌^◌, ◌≤◌, ◌<◌, ◌≡◌, refl, ap, ap₂, lt→ltb, ge→ltb, ◌∙◌, List, [], ◌∷◌,
  map, true, false, none, All, arith, length, Bytes, ltb,
}
use my_iperf.Prelude.Int.{pos}
use my_iperf.Result.{ok}
use my_iperf.Protocol.{header_size, encode_header}
use my_iperf.Parser.{ParsedPacket, frame}
use my_iperf.Config.{Config}
use my_iperf.Stats.{Floats}
use my_iperf.Generator.{
  PacketGenerator, Attempt, Sending, create_packet, may_send, should_continue_sending,
  after_attempt, attempt_packet, send_loop, send_packets, get_stats, start_sending, and_then,
  break_with,
}
use my_iperf.Generator.Packets.{data_packet, data_packets}

-- The network takes the whole packet and nobody stops the run.
abbrev pub IsSent : ℕ → Attempt → Type 0
IsSent size a = (a.result ≡ ok size) × (a.stop_at ≡ none)

-- A configuration for a bounded run of packets with room for the header.
pub record IsBounded (config : Config) (count payload_size : ℕ) : Type 0 where
  pub packets : config.num_packets ≡ pos count
  pub count_positive : 0 < count
  pub count_int : count < 2 ^ 31
  pub size : config.packet_size ≡ pos (header_size + payload_size)

module _ {R : Type 0} (count payload_size : ℕ) (g : PacketGenerator R)
    (v : IsBounded g.config count payload_size) where
  create_packet_lem :
      g.packet_counter < count
      → create_packet g ≡ (
        frame (data_packet g.config g.packet_counter payload_size),
        record g { packet_counter = g.packet_counter + 1 },
      )
  unfolding create_packet data_packet
  create_packet_lem h = ground (arith, v.size, v.count_int)

  may_send-running :
      g.running ≡ true → g.packet_counter < 2 ^ 31 → may_send g ≡ ltb g.packet_counter count
  unfolding may_send should_continue_sending
  may_send-running r h = ground (arith, v.packets, v.count_positive)

abbrev sent_state : {R : Type 0} → ℕ → PacketGenerator R → PacketGenerator R
sent_state bytes g = record g {
  total_bytes_sent = g.total_bytes_sent + bytes;
  total_packets_sent = g.total_packets_sent + 1;
}

after_attempt_sent :
    {R : Type 0} (packet : Bytes) (g : PacketGenerator R) (rest : PacketGenerator R → Sending R)
    (size : ℕ)
    → 0 < size
    → g.running ≡ true
    → after_attempt packet g none rest (ok size) ≡ and_then packet (rest (sent_state size g))
unfolding after_attempt
after_attempt_sent packet g rest zero h r = absurd (omega arith)
after_attempt_sent packet g rest (suc n) h r = rw r

attempt_packet_sent :
    {R : Type 0} (k : ParsedPacket) (g : PacketGenerator R) (a : Attempt)
    (rest : PacketGenerator R → Sending R) (size : ℕ)
    → 0 < size
    → g.running ≡ true
    → IsSent size a
    → attempt_packet (frame k, g) a rest ≡ and_then (frame k) (rest (sent_state size g))
unfolding attempt_packet encode_header
attempt_packet_sent k g a rest size h r s =
    ap₂ (λ x y. after_attempt (frame k) g x rest y) s.1 s.0
    ∙ after_attempt_sent (frame k) g rest size h r

abbrev after_run : {R : Type 0} → ℕ → ℕ → PacketGenerator R → PacketGenerator R
after_run m size g = record g {
  packet_counter = g.packet_counter + m;
  total_bytes_sent = g.total_bytes_sent + m * size;
  total_packets_sent = g.total_packets_sent + m;
}

send_loop-stop :
    {R : Type 0} (g : PacketGenerator R) (attempts : List Attempt)
    → may_send g ≡ false
    → send_loop g attempts ≡ break_with [] g
unfolding send_loop break_with
send_loop-stop g [] h = rw h
send_loop-stop g (a ∷ attempts) h = rw h

send_loop-more :
    {R : Type 0} (g : PacketGenerator R) (a : Attempt) (attempts : List Attempt)
    → may_send g ≡ true
    → send_loop g (a ∷ attempts) ≡ attempt_packet (create_packet g) a (λ g'. send_loop g' attempts)
unfolding send_loop
send_loop-more g a attempts h = rw h

after_run-next :
    {R : Type 0} (m size : ℕ) (g : PacketGenerator R)
    → after_run m size (sent_state size (record g { packet_counter = g.packet_counter + 1 }))
      ≡ after_run (suc m) size g
after_run-next m size g =
    let total : suc m * size ≡ m * size + size = omega arith in ground (arith, total)

joined :
    {R : Type 0} (packet : Bytes) {ps ps' : List Bytes} {g g' : PacketGenerator R}
    → ps ≡ ps'
    → g ≡ g'
    → and_then packet (record { packets = ps; ended = true; generator = g })
      ≡ record { packets = packet ∷ ps'; ended = true; generator = g' }
unfolding and_then
joined packet p q = λ i. record { packets = packet ∷ p i; ended = true; generator = q i }

suc-eq : (n : ℕ) → n + 1 ≡ suc n
suc-eq n = omega arith

send_loop_complete :
    {R : Type 0} (count payload_size m : ℕ) (g : PacketGenerator R) (attempts : List Attempt)
    → IsBounded g.config count payload_size
    → g.running ≡ true
    → g.packet_counter + m ≡ count
    → m ≤ length attempts
    → All (IsSent (header_size + payload_size)) attempts
    → send_loop g attempts ≡ record {
      packets = map frame (data_packets g.config payload_size g.packet_counter m);
      ended = true;
      generator = after_run m (header_size + payload_size) g;
    }
unfolding data_packets break_with
send_loop_complete count payload_size zero g attempts v r e len s =
    send_loop-stop g attempts (
      may_send-running count payload_size g v r (omega (arith, v.count_int))
      ∙ ge→ltb g.packet_counter count (omega arith))
    ∙ ground arith
send_loop_complete count payload_size (suc m) g [] v r e len s = absurd (omega arith)
send_loop_complete count payload_size (suc m) g (a ∷ more) v r e len s =
    send_loop-more g a more (
      may_send-running count payload_size g v r (omega (arith, v.count_int))
      ∙ lt→ltb g.packet_counter count (omega arith))
    ∙ ap (λ c. attempt_packet c a (λ g'. send_loop g' more))
        (create_packet_lem count payload_size g v (omega arith))
    ∙ attempt_packet_sent (data_packet g.config g.packet_counter payload_size) _ a _
        (header_size + payload_size) (omega arith) r s.0
    ∙ ap (and_then (frame (data_packet g.config g.packet_counter payload_size))) (
        send_loop_complete count payload_size m
          (sent_state (header_size + payload_size)
            (record g { packet_counter = g.packet_counter + 1 }))
          more v r (omega arith) (omega arith) s.1)
    ∙ joined (frame (data_packet g.config g.packet_counter payload_size))
        (ap (λ n. map frame (data_packets g.config payload_size n m)) (suc-eq g.packet_counter))
        (after_run-next m (header_size + payload_size) g)

-- With a bounded number of packets, room for the header and a network that takes each packet whole, a
-- run that nobody stops ends after sending exactly the packets with the counters 0, 1, … in order, and
-- its statistics count these packets and their bytes.
pub send_packets_complete :
    (f : Floats) (config : Config) (count payload_size now later : ℕ) (g : PacketGenerator f.Real)
    (attempts : List Attempt)
    → IsBounded config count payload_size
    → count ≤ length attempts
    → All (IsSent (header_size + payload_size)) attempts
    → let s = send_packets f config now later g attempts in
      (s.packets ≡ map frame (data_packets config payload_size 0 count))
      × (s.ended ≡ true)
      × (s.generator.running ≡ false)
      × ((get_stats f s.generator).total_packets_sent ≡ count)
      × ((get_stats f s.generator).total_bytes_sent ≡ count * (header_size + payload_size))
unfolding send_packets get_stats
send_packets_complete f config count payload_size now later g attempts v len s =
    let e =
      send_loop_complete count payload_size count (start_sending f config now g) attempts v refl
        (omega arith) len s in
    ground (arith, e)
