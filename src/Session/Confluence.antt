-- ===== src/Session/Confluence.antt =====
-- Moves of the two sides in different orders.
use my_iperf.Prelude.{
  Text, Bool, true, false, suc, ◌+◌, ◌≡◌, refl, ap, ◌∙◌, ◌++◌, length, List, [], ◌∷◌, Option, none,
  some, arith, ◌⊎◌, inl, inr, Option-cases,
}
use my_iperf.Protocol.{MessageType}
use my_iperf.Stats.{Floats}
use my_iperf.Result.{Result, ok, throw}
use my_iperf.Session.{Context, Surroundings, Script, finished, act, require, generate, send, wait}
use my_iperf.Session.Steps.{
  Post, Peer, take_first, advance, after_sending, after_waiting, deliver_to, go_on, Side,
  client_side, server_side, Pair, move, run_pair, IsAtRest, client_moves, server_moves, run_from,
}

take_first-append :
    (type : MessageType) (posts more : List Post) (payload : _) (rest : List Post)
    → take_first type posts ≡ some (payload, rest)
    → take_first type (posts ++ more) ≡ some (payload, rest ++ more)
unfolding take_first
take_first-append type [] more payload rest h = cc
take_first-append type ((other, found) ∷ posts) more payload rest h =
    elim (Option-cases (take_first type posts)) [
      | inl e ↦ ground arith
      | inr ((later, left), e) ↦
          let ih = take_first-append type posts more later left e in ground arith
    ]

module _ {f : Floats} (around : Surroundings f) where
  abbrev later : List Post → Peer f × List Post → Peer f × List Post
  later more (p, out) = (deliver_to more p, out)

  abbrev stepped : List Post → Option (Peer f × List Post) → Option (Peer f × List Post)
  stepped more none = none
  stepped more (some x) = some (later more x)

  go_on-deliver_to :
      (r : Result (Context f)) (next : Script f) (p : Peer f) (more : List Post)
      → go_on r next (deliver_to more p) ≡ deliver_to more (go_on r next p)
  go_on-deliver_to (ok c) next p more = refl
  go_on-deliver_to (throw what) next p more = refl

  after_sending-deliver_to :
      (ended : Bool) (p q : Peer f) (out more : List Post)
      → after_sending ended p ≡ some (q, out)
      → after_sending ended (deliver_to more p) ≡ some (deliver_to more q, out)
  unfolding after_sending
  after_sending-deliver_to true p q out more h = ap (stepped more) h
  after_sending-deliver_to false p q out more h = cc

  after_waiting-deliver_to :
      (read : Text → Context f → Result (Context f)) (next : Script f) (p q : Peer f)
      (out more : List Post) (found : Option (Text × List Post)) (type : MessageType)
      → take_first type p.inbox ≡ found
      → after_waiting read next p found ≡ some (q, out)
      → after_waiting read next (deliver_to more p) (take_first type (p.inbox ++ more))
        ≡ some (deliver_to more q, out)
  unfolding after_waiting
  after_waiting-deliver_to read next p q out more none type e h = cc
  after_waiting-deliver_to read next p q out more (some (payload, rest)) type e h =
      ap (after_waiting read next (deliver_to more p))
        (take_first-append type p.inbox more payload rest e)
      ∙ ap (λ x. some (x, []))
          (go_on-deliver_to (read payload p.context) next (record p { inbox = rest }) more)
      ∙ ap (stepped more) h

  -- What arrives later does not change a step that is possible now.
  advance-deliver_to :
      (s : Script f) (p q : Peer f) (out more : List Post)
      → advance around s p ≡ some (q, out)
      → advance around s (deliver_to more p) ≡ some (deliver_to more q, out)
  unfolding advance
  advance-deliver_to finished p q out more h = cc
  advance-deliver_to (act change next) p q out more h = ap (stepped more) h
  advance-deliver_to (require true message next) p q out more h = ap (stepped more) h
  advance-deliver_to (require false message next) p q out more h = ap (stepped more) h
  advance-deliver_to (generate next) p q out more h = after_sending-deliver_to _ _ q out more h
  advance-deliver_to (send type payload next) p q out more h = ap (stepped more) h
  advance-deliver_to (wait type timeout read next) p q out more h =
      after_waiting-deliver_to read next p q out more _ type refl h

module _ {f : Floats} (client_around server_around : Surroundings f) where
  abbrev moves : Side → Pair f → Option (Pair f)
  moves = move client_around server_around

  client_moves-some :
      (p q : Pair f) (x : Option (Peer f × List Post))
      → client_moves client_around server_around p x ≡ some q
      → (c : Peer f) × (out : List Post) × (x ≡ some (c, out))
        × (q ≡ record { client = c; server = deliver_to out p.server })
  unfolding client_moves
  client_moves-some p q none h = cc
  client_moves-some p q (some (c, out)) h = (c, out, refl, cc)

  server_moves-some :
      (p q : Pair f) (x : Option (Peer f × List Post))
      → server_moves client_around server_around p x ≡ some q
      → (s : Peer f) × (out : List Post) × (x ≡ some (s, out))
        × (q ≡ record { client = deliver_to out p.client; server = s })
  unfolding server_moves
  server_moves-some p q none h = cc
  server_moves-some p q (some (s, out)) h = (s, out, refl, cc)

  -- Two sides that can both move can do so in either order, with the same outcome.
  move-swap :
      (p q r : Pair f)
      → moves client_side p ≡ some q
      → moves server_side p ≡ some r
      → (s : Pair f) × (moves server_side q ≡ some s) × (moves client_side r ≡ some s)
  unfolding move client_moves server_moves
  move-swap p q r hq hr =
      let (c, out, ec, eq) = client_moves-some p q _ hq in
      let (s, posts, es, er) = server_moves-some p r _ hr in
      let to_server = advance-deliver_to server_around p.server.script p.server s posts out es in
      let to_client = advance-deliver_to client_around p.client.script p.client c out posts ec in
      (
        record { client = deliver_to posts c; server = deliver_to out s },
        rw eq (
            ap
              (server_moves client_around server_around
                (record { client = c; server = deliver_to out p.server }))
              to_server),
        rw er (
            ap
              (client_moves client_around server_around
                (record { client = deliver_to posts p.client; server = s }))
              to_client),
      )

  -- The same for any two moves, of which one may be the other.
  move-join :
      (s t : Side) (p q r : Pair f)
      → moves s p ≡ some q
      → moves t p ≡ some r
      → (q ≡ r) ⊎ ((u : Pair f) × (moves t q ≡ some u) × (moves s r ≡ some u))
  move-join client_side client_side p q r hq hr = inl cc
  move-join server_side server_side p q r hq hr = inl cc
  move-join client_side server_side p q r hq hr = inr (move-swap p q r hq hr)
  move-join server_side client_side p q r hq hr =
      let (u, a, b) = move-swap p r q hr hq in inr (u, b, a)

  abbrev runs : List Side → Pair f → Option (Pair f)
  runs = run_pair client_around server_around

  run_from-some :
      (rest : Pair f → Option (Pair f)) (x : Option (Pair f)) (n : Pair f)
      → run_from client_around server_around rest x ≡ some n
      → (q : Pair f) × (x ≡ some q) × (rest q ≡ some n)
  unfolding run_from
  run_from-some rest none n h = cc
  run_from-some rest (some q) n h = (q, refl, h)

  run_pair-∷ :
      (s : Side) (sides : List Side) (p q : Pair f)
      → moves s p ≡ some q
      → runs (s ∷ sides) p ≡ runs sides q
  unfolding run_pair run_from
  run_pair-∷ s sides p q h = ap (run_from client_around server_around (runs sides)) h

  -- A move that is possible now is not missed: what is left after it still ends where the whole
  -- would have ended, one move shorter.
  run_pair-move :
      (sides : List Side) (s : Side) (p q n : Pair f)
      → runs sides p ≡ some n
      → IsAtRest client_around server_around n
      → moves s p ≡ some q
      → (left : List Side) × (runs left q ≡ some n) × (length sides ≡ suc (length left))
  unfolding run_pair
  run_pair-move [] s p q n h rest hq = let stays = rest s in cc
  run_pair-move (t ∷ sides) s p q n h rest hq =
      let (r, hr, hn) = run_from-some (runs sides) _ n h in
      elim (move-join s t p q r hq hr) [
        | inl e ↦ (sides, rw e hn, refl)
        | inr (u, hu, hs) ↦
            let (left, hl, len) = run_pair-move sides s r u n hn rest hs in
            (t ∷ left, run_pair-∷ t left q u hu ∙ hl, ap suc len)
      ]

  -- Where some order of moves ends with both sides at rest, every order ends there after the same
  -- number of moves: whatever was done so far can be continued, and no order goes on for longer.
  pub run_pair-ends :
      (sides past : List Side) (p m n : Pair f)
      → runs sides p ≡ some n
      → IsAtRest client_around server_around n
      → runs past p ≡ some m
      → (left : List Side) × (runs left m ≡ some n) × (length sides ≡ length past + length left)
  unfolding run_pair
  run_pair-ends sides [] p m n h rest hm = (sides, cc, omega arith)
  run_pair-ends sides (s ∷ past) p m n h rest hm =
      let (q, hq, hp) = run_from-some (runs past) _ m hm in
      let (left, hl, len) = run_pair-move sides s p q n h rest hq in
      let (after, ha, len') = run_pair-ends left past q m n hl rest hp in (after, ha, omega arith)
