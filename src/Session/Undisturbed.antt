-- ===== src/Session/Undisturbed.antt =====
-- Histories of the two sessions with interruptions: a side that was interrupted stays in ERRORED.
use my_iperf.Prelude.{
  ◌≡◌, refl, ap, subst, ◌∙◌, ◌⊎◌, inl, inr, List, [], ◌∷◌, length, map, Option, none, some, arith,
}
use my_iperf.Stats.{Floats}
use my_iperf.RunResult.{State}
use my_iperf.Session.{Surroundings, Script, finished}
use my_iperf.Session.Steps.{
  Post, Peer, advance, Side, client_side, server_side, Pair, move, client_moves, server_moves,
  run_pair, run_from,
}
use my_iperf.Session.Interruptions.{
  Interruption, timed_out, cancelled, send_failed, Event, moves, interrupts, IsInterrupted,
  interrupt, client_interrupted, server_interrupted, happen, run_events,
}

module _ {f : Floats} where
  -- The session of the side has ended with an exception.
  abbrev pub HasFailed : Peer f → Type 0
  HasFailed p = (p.script ≡ finished) × (p.context.state ≡ State.errored)

  abbrev pub AnyFailed : Pair f → Type 0
  AnyFailed p = HasFailed p.client ⊎ HasFailed p.server

  interrupt-HasFailed :
      (x : Interruption) (script : Script f) (p q : Peer f)
      → interrupt x script p ≡ some q
      → HasFailed q
  unfolding interrupt
  interrupt-HasFailed x script p q h = ground arith

  -- Nothing happens any more on a side that has ended.
  interrupt-finished :
      (x : Interruption) (script : Script f) (p : Peer f)
      → script ≡ finished
      → interrupt x script p ≡ none
  unfolding interrupt
  interrupt-finished timed_out script p e = ap (λ t. interrupt timed_out t p) e
  interrupt-finished cancelled script p e = ap (λ t. interrupt cancelled t p) e
  interrupt-finished (send_failed what) script p e = ap (λ t. interrupt (send_failed what) t p) e

module _ {f : Floats} (client_around server_around : Surroundings f) where
  abbrev happens : Event → Pair f → Option (Pair f)
  happens = happen client_around server_around

  advance-finished :
      (around : Surroundings f) (p : Peer f)
      → p.script ≡ finished
      → advance around p.script p ≡ none
  unfolding advance
  advance-finished around p e = ap (λ t. advance around t p) e

  client_moves-failed :
      (p q : Pair f) (o : Option (Peer f × List Post))
      → client_moves client_around server_around p o ≡ some q
      → HasFailed p.server
      → HasFailed q.server
  unfolding client_moves
  client_moves-failed p q o h k = ground arith

  server_moves-failed :
      (p q : Pair f) (o : Option (Peer f × List Post))
      → server_moves client_around server_around p o ≡ some q
      → HasFailed p.client
      → HasFailed q.client
  unfolding server_moves
  server_moves-failed p q o h k = ground arith

  client_interrupted-failed :
      (p q : Pair f) (o : Option (Peer f))
      → client_interrupted client_around server_around p o ≡ some q
      → (o ≡ some q.client) × (q.server ≡ p.server)
  unfolding client_interrupted
  client_interrupted-failed p q none h = cc
  client_interrupted-failed p q (some c) h = (cc, cc)

  server_interrupted-failed :
      (p q : Pair f) (o : Option (Peer f))
      → server_interrupted client_around server_around p o ≡ some q
      → (o ≡ some q.server) × (q.client ≡ p.client)
  unfolding server_interrupted
  server_interrupted-failed p q none h = cc
  server_interrupted-failed p q (some c) h = (cc, cc)

  -- An interruption ends a session with an exception.
  interrupts-failed :
      (side : Side) (x : Interruption) (p q : Pair f)
      → happens (interrupts side x) p ≡ some q
      → AnyFailed q
  unfolding happen
  interrupts-failed client_side x p q h = inl (
      interrupt-HasFailed x p.client.script p.client q.client (client_interrupted-failed p q _ h).0)
  interrupts-failed server_side x p q h = inr (
      interrupt-HasFailed x p.server.script p.server q.server (server_interrupted-failed p q _ h).0)

  happen-failed : (e : Event) (p q : Pair f) → happens e p ≡ some q → AnyFailed p → AnyFailed q
  unfolding happen move client_moves server_moves
  happen-failed (moves client_side) p q h (inl k) =
      let stuck = advance-finished client_around p.client k.0 in
      let none_moves = ap (client_moves client_around server_around p) stuck in absurd (cc)
  happen-failed (moves client_side) p q h (inr k) = inr (client_moves-failed p q _ h k)
  happen-failed (moves server_side) p q h (inl k) = inl (server_moves-failed p q _ h k)
  happen-failed (moves server_side) p q h (inr k) =
      let stuck = advance-finished server_around p.server k.0 in
      let none_moves = ap (server_moves client_around server_around p) stuck in absurd (cc)
  happen-failed (interrupts side x) p q h k = interrupts-failed side x p q h

  run_from-some :
      (rest : Pair f → Option (Pair f)) (o : Option (Pair f)) (q : Pair f)
      → run_from client_around server_around rest o ≡ some q
      → (m : Pair f) × (o ≡ some m) × (rest m ≡ some q)
  unfolding run_from
  run_from-some rest none q h = cc
  run_from-some rest (some m) q h = (m, refl, h)

  run_events-failed :
      (es : List Event) (p q : Pair f)
      → run_events client_around server_around es p ≡ some q
      → AnyFailed p
      → AnyFailed q
  unfolding run_events
  run_events-failed [] p q h k = let same : p ≡ q = cc in subst (λ x. AnyFailed x) same k
  run_events-failed (e ∷ es) p q h k =
      let (m, now, after) =
        run_from-some (run_events client_around server_around es) (happens e p) q h in
      run_events-failed es m q after (happen-failed e p m now k)

  -- The moves that a history consists of, if it has no interruption.
  abbrev pub Moves : List Event → Pair f → Pair f → Type 0
  Moves es p q =
      (sides : List Side) × (run_pair client_around server_around sides p ≡ some q)
      × (length sides ≡ length es)

  -- A history either has an interruption, and one of the sessions has then ended with an exception, or
  -- it is a sequence of moves.
  pub run_events-Moves :
      (es : List Event) (p q : Pair f)
      → run_events client_around server_around es p ≡ some q
      → (IsInterrupted es × AnyFailed q) ⊎ Moves es p q
  unfolding run_events run_pair run_from happen
  run_events-Moves [] p q h = inr ([], h, refl)
  run_events-Moves (interrupts side x ∷ es) p q h =
      let (m, now, after) =
        run_from-some (run_events client_around server_around es) (happens (interrupts side x) p) q
          h in
      inl (IsInterrupted.first, run_events-failed es m q after (interrupts-failed side x p m now))
  run_events-Moves (moves side ∷ es) p q h =
      let (m, now, after) =
        run_from-some (run_events client_around server_around es) (happens (moves side) p) q h in
      elim (run_events-Moves es m q after) [
        | inl (i, k) ↦ inl (IsInterrupted.later i, k)
        | inr (sides, r, n) ↦ inr (
          side ∷ sides,
          ap (run_from client_around server_around (run_pair client_around server_around sides)) now
              ∙ r,
          omega arith,
        )
      ]

  run_from-map :
      (sides : List Side) (o : Option (Pair f))
      → ((p : Pair f)
          → run_events client_around server_around (map moves sides) p
            ≡ run_pair client_around server_around sides p)
      → run_from client_around server_around
          (run_events client_around server_around (map moves sides))
          o
        ≡ run_from client_around server_around (run_pair client_around server_around sides) o
  unfolding run_from
  run_from-map sides none h = refl
  run_from-map sides (some p) h = h p

  -- A sequence of moves as a history.
  pub run_events-map :
      (sides : List Side) (p : Pair f)
      → run_events client_around server_around (map moves sides) p
        ≡ run_pair client_around server_around sides p
  unfolding run_events run_pair happen
  run_events-map [] p = refl
  run_events-map (side ∷ sides) p =
      run_from-map sides (move client_around server_around side p) (run_events-map sides)
