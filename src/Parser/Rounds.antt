-- ===== src/Parser/Rounds.antt =====
-- The parser's loop as a relation: any number of rounds that go on, and how the loop stops.
use my_iperf.Prelude.{ℕ, suc, ◌<◌, ◌≡◌, refl, ◌⊎◌, inl, inr, Bytes, [], arith, length}
use my_iperf.Parser.{
  PacketStreamParser, PacketParseResult, State, Round, again, incomplete, oversized, round, drain,
  drain_packets, no_packets,
}
use my_iperf.Parser.Steps.{round_shrinks, extend, round-again_extend}

pub data Rounds
    : PacketStreamParser → PacketParseResult → PacketStreamParser → PacketParseResult → Type 0 where
  stay : {p : PacketStreamParser} {r : PacketParseResult} → Rounds p r p r
  next :
      {p p' q : PacketStreamParser} {r r' s : PacketParseResult}
      → round p r ≡ again p' r'
      → Rounds p' r' q s
      → Rounds p r q s

-- The state that `drain` returns when the loop stops at (q, s).
pub data Ends (q : PacketStreamParser) (s : PacketParseResult) : State → Type 0 where
  waits : round q s ≡ incomplete → Ends q s (q, s)
  clears : round q s ≡ oversized → Ends q s (record q { buffer = [] }, s)

abbrev pub Outcome : PacketStreamParser → PacketParseResult → State → Type 0
Outcome p r t = (q : PacketStreamParser) × (s : PacketParseResult) × Rounds p r q s × Ends q s t

pub Round-cases :
    (x : Round)
    → ((p : PacketStreamParser) × (r : PacketParseResult) × (x ≡ again p r))
      ⊎ ((x ≡ incomplete) ⊎ (x ≡ oversized))
Round-cases (again p r) = inl (p, r, refl)
Round-cases incomplete = inr (inl refl)
Round-cases oversized = inr (inr refl)

pub drain-Outcome :
    (fuel : ℕ) (p : PacketStreamParser) (r : PacketParseResult)
    → length p.buffer < fuel
    → Outcome p r (drain fuel p r)
unfolding drain
drain-Outcome ℕ.zero p r h = absurd (omega arith)
drain-Outcome (suc fuel) p r h = elim (Round-cases (round p r)) [
  | inl (p', r', e) ↦
      let rest = drain-Outcome fuel p' r' (omega (arith, round_shrinks p r p' r' e)) in
      rw (e, drain) (rest.0, rest.1, next e rest.2, rest.3)
  | inr (inl e) ↦ rw (e, drain) (p, r, stay, waits e)
  | inr (inr e) ↦ rw (e, drain) (p, r, stay, clears e)
]

-- Draining follows the rounds of the loop until it stops by itself: the fuel never runs out.
pub drain_packets-Outcome : (p : PacketStreamParser) → Outcome p no_packets (drain_packets p)
unfolding drain_packets
drain_packets-Outcome p = drain-Outcome (suc (length p.buffer)) p no_packets (omega arith)

abbrev pub Stops : Round → Type 0
Stops (again p r) = ⊥
Stops incomplete = Unit
Stops oversized = Unit

again-not-Stops :
    (x : Round) (p : PacketStreamParser) (r : PacketParseResult) → x ≡ again p r → Stops x → ⊥
again-not-Stops (again q s) p r e h = h
again-not-Stops incomplete p r e h = cc
again-not-Stops oversized p r e h = cc

abbrev pub end : PacketStreamParser → PacketParseResult → State
end q s = (q, s)

restart :
    {p p' q : PacketStreamParser} {r r' s : PacketParseResult} (x : Round)
    → x ≡ again p r
    → x ≡ again p' r'
    → Rounds p' r' q s
    → Rounds p r q s
restart {p} {p'} {q} {r} {r'} {s} x e e' a =
    let ep : p ≡ p' = cc in let er : r ≡ r' = cc in rw (ep, er) a

-- The loop is deterministic: two runs that stop have stopped in the same state.
pub Rounds-unique :
    {p q q' : PacketStreamParser} {r s s' : PacketParseResult}
    → Rounds p r q s
    → Rounds p r q' s'
    → Stops (round q s)
    → Stops (round q' s')
    → end q s ≡ end q' s'
Rounds-unique stay stay h h' = refl
Rounds-unique stay (next e b) h h' = absurd (again-not-Stops _ _ _ e h)
Rounds-unique (next e a) stay h h' = absurd (again-not-Stops _ _ _ e h')
Rounds-unique (next e a) (next e' b) h h' = Rounds-unique a (restart _ e e' b) h h'

pub Rounds-trans :
    {p q u : PacketStreamParser} {r s t : PacketParseResult}
    → Rounds p r q s
    → Rounds q s u t
    → Rounds p r u t
Rounds-trans stay b = b
Rounds-trans (next e a) b = next e (Rounds-trans a b)

-- More bytes behind the buffer do not change the rounds that are made without them.
pub Rounds-extend :
    (c : Bytes) {p q : PacketStreamParser} {r s : PacketParseResult}
    → Rounds p r q s
    → Rounds (extend p c) r (extend q c) s
Rounds-extend c stay = stay
Rounds-extend c (next {p = p} {p' = p'} {r = r} {r' = r'} e a) =
    next (round-again_extend p r c p' r' e) (Rounds-extend c a)
