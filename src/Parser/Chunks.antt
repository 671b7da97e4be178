-- ===== src/Parser/Chunks.antt =====
-- The byte stream in pieces that the network chooses.
use my_iperf.Prelude.{
  ℕ, ◌+◌, ◌≡◌, refl, sym, ap, ◌∙◌, Bytes, List, [], ◌∷◌, ◌++◌, flatten, All, arith, subst, length,
  take-length, append_assoc, append-nil,
}
use my_iperf.Parser.{
  PacketStreamParser, PacketParseResult, State, Round, again, incomplete, oversized, round, append,
  make_parser, ParsedPacket, drain_packets, no_packets, front_packet,
}
use my_iperf.Protocol.{decode_header}
use my_iperf.Parser.Steps.{extend, round-oversized_extend}
use my_iperf.Parser.Rounds.{
  Rounds, stay, next, Outcome, waits, clears, Stops, end, Rounds-unique, Rounds-trans,
  Rounds-extend, drain_packets-Outcome,
}
use my_iperf.Parser.Frames.{IsFrame, Rounds-frame_list, frames, idle}

-- Results of successive calls of `drainPackets`, taken together.
abbrev pub merge : PacketParseResult → PacketParseResult → PacketParseResult
merge a r = record {
  packets = a.packets ++ r.packets;
  checksum_failures = a.checksum_failures + r.checksum_failures;
}

-- `append` and `drainPackets`, as the receiver calls them for each piece of the stream.
unfoldable pub receive_chunk : PacketStreamParser → Bytes → State
receive_chunk p bytes = drain_packets (append p bytes (length bytes))

unfoldable pub receive_chunks : PacketStreamParser → List Bytes → State
unfolding receive_chunk
receive_chunks p [] = (p, no_packets)
receive_chunks p (c ∷ cs) =
    let (p', r) = receive_chunk p c in let (q, s) = receive_chunks p' cs in (q, merge r s)

module _ (a : PacketParseResult) (p : PacketStreamParser) (r : PacketParseResult) where
  round-merge :
      (p' : PacketStreamParser) (r' : PacketParseResult)
      → round p r ≡ again p' r'
      → round p (merge a r) ≡ again p' (merge a r')
  unfolding round
  round-merge p' r' h = ground (
    arith,
    append_assoc a.packets r.packets (front_packet p.buffer (decode_header p.buffer) ∷ []),
  )

  -- Whether the loop stops does not depend on the packets found so far.
  round-incomplete_any : round p r ≡ incomplete → round p a ≡ incomplete
  unfolding round
  round-incomplete_any h = ground arith

  round-oversized_any : round p r ≡ oversized → round p a ≡ oversized
  unfolding round
  round-oversized_any h = ground arith

Rounds-merge :
    (a : PacketParseResult) {p q : PacketStreamParser} {r s : PacketParseResult}
    → Rounds p r q s
    → Rounds p (merge a r) q (merge a s)
Rounds-merge a stay = stay
Rounds-merge a (next {p = p} {p' = p'} {r = r} {r' = r'} e rest) =
    next (round-merge a p r p' r' e) (Rounds-merge a rest)

merge-no_packets : (a : PacketParseResult) → merge a no_packets ≡ a
merge-no_packets a = ground (arith, append-nil a.packets)

-- Rounds made on bytes that arrive later, counted on top of an earlier result.
Rounds-later :
    (a : PacketParseResult) {p q : PacketStreamParser} {s : PacketParseResult}
    → Rounds p no_packets q s
    → Rounds p a q (merge a s)
Rounds-later a {p} {q} {s} h =
    subst (λ x. Rounds p x q (merge a s)) (merge-no_packets a) (Rounds-merge a h)

not-both : (x : Round) → x ≡ incomplete → x ≡ oversized → ⊥
not-both x e e' = cc

-- What the loop does on the bytes of `c` and then on those of `rest`, given that on both together it
-- ends at (q, s) for want of bytes.
module _ (p q : PacketStreamParser) (s : PacketParseResult) (c rest : Bytes)
    (whole : Rounds (extend (extend p c) rest) no_packets q s)
    (waiting : round q s ≡ incomplete) where
  abbrev Continues : State → Type 0
  Continues t =
      (round t.0 no_packets ≡ incomplete)
      × (u : PacketStreamParser) × (v : PacketParseResult) × Rounds (extend t.0 rest) no_packets u v
      × (round u v ≡ incomplete)
      × (end u (merge t.1 v) ≡ end q s)

  waits-here : Stops (round q s)
  waits-here = rw waiting tt

  second_part :
      {q1 : PacketStreamParser} {s1 : PacketParseResult} {t : State}
      → Rounds (extend p c) no_packets q1 s1
      → round q1 s1 ≡ incomplete
      → Outcome (extend q1 rest) no_packets t
      → Continues (end q1 s1)
  second_part {q1} {s1} first e (u, v, more, waits e2) = (
    round-incomplete_any no_packets q1 s1 e,
    u,
    v,
    more,
    e2,
    Rounds-unique (Rounds-trans (Rounds-extend rest first) (Rounds-later s1 more)) whole
        (rw (round-incomplete_any (merge s1 v) u v e2) tt) waits-here,
  )
  second_part {q1} {s1} first e (u, v, more, clears e2) =
      let over : round u (merge s1 v) ≡ oversized = round-oversized_any (merge s1 v) u v e2 in
      let same =
        Rounds-unique (Rounds-trans (Rounds-extend rest first) (Rounds-later s1 more)) whole
          (rw over tt) waits-here in
      absurd (not-both (round q s) waiting (sym (ap (λ (x : State). round x.0 x.1) same) ∙ over))

  first_part : {t : State} → Outcome (extend p c) no_packets t → Continues t
  first_part (q1, s1, first, waits e) = second_part first e (drain_packets-Outcome (extend q1 rest))
  first_part (q1, s1, first, clears e) =
      let over : round (extend q1 rest) s1 ≡ oversized = round-oversized_extend q1 s1 rest e in
      let same = Rounds-unique (Rounds-extend rest first) whole (rw over tt) waits-here in
      absurd (not-both (round q s) waiting (sym (ap (λ (x : State). round x.0 x.1) same) ∙ over))

  first_chunk : Continues (receive_chunk p c)
  unfolding receive_chunk append
  first_chunk = rw (take-length c) (first_part (drain_packets-Outcome (extend p c)))

-- If draining the whole stream at once ends for want of bytes, then receiving it in any pieces
-- leaves the parser in the same state and returns the same packets and checksum failures.
pub receive_chunks_any_cut :
    (cs : List Bytes) (p q : PacketStreamParser) (s : PacketParseResult)
    → round p no_packets ≡ incomplete
    → Rounds (extend p (flatten cs)) no_packets q s
    → round q s ≡ incomplete
    → receive_chunks p cs ≡ end q s
unfolding receive_chunks
receive_chunks_any_cut [] p q s idle whole waiting =
    Rounds-unique stay
      (subst (λ b. Rounds (record p { buffer = b }) no_packets q s) (append-nil p.buffer) whole)
      (rw idle tt) (rw waiting tt)
receive_chunks_any_cut (c ∷ cs) p q s idle whole waiting =
    let first =
      first_chunk p q s c (flatten cs)
        (subst (λ b. Rounds (record p { buffer = b }) no_packets q s)
          (sym (append_assoc p.buffer c (flatten cs))) whole)
        waiting in
    ap (λ (x : State). end x.0 (merge (receive_chunk p c).1 x.1))
      (receive_chunks_any_cut cs (receive_chunk p c).0 first.1 first.2 first.0 first.3 first.4)
    ∙ first.5

-- A sender's packets, well formed and within the receiver's limit, come out of a fresh parser in
-- their order and unchanged however the stream is cut into pieces, with no checksum failure and no
-- byte left over.
pub receive_chunks-frames :
    (max : ℕ) (ks : List ParsedPacket) (cs : List Bytes)
    → All (IsFrame max) ks
    → flatten cs ≡ frames ks
    → receive_chunks (make_parser max) cs
      ≡ (make_parser max, record { packets = ks; checksum_failures = 0 })
unfolding make_parser round
receive_chunks-frames max ks cs h cut =
    receive_chunks_any_cut cs (idle max [] 0) (idle max [] 0) _ refl
      (rw cut (Rounds-frame_list max ks h)) refl
