-- ===== src/Session/Interruptions.antt =====
-- MyIperf/src/myiperf/ControlMessageBus.cpp (`await_resume`, and the timer of a wait) and
-- TestController.cpp (`runTestCoroutine`): the exceptions that a wait or a send of a session throws at
-- any moment, and the histories of the two sides with them.
use my_iperf.Prelude.{Text, text, ◌++◌, List, [], ◌∷◌, Option, none, some, if◌then◌else◌}
use my_iperf.Prelude.Int.{pos, ltb_ℤ}
use my_iperf.Protocol.{value}
use my_iperf.ControlPacket.{message_type_to_string}
use my_iperf.Stats.{Floats}
use my_iperf.Session.{Surroundings, Script, send, wait}
use my_iperf.Session.Steps.{Peer, fail_with, Side, client_side, server_side, Pair, move, run_from}

-- The timer of a wait runs out, `cancelAll` ends the wait, or the network's send throws.
pub data Interruption : Type 0 where
  timed_out cancelled : Interruption
  send_failed : Text → Interruption

pub data Event : Type 0 where
  moves : Side → Event
  interrupts : Side → Interruption → Event

-- Some event of the history is an interruption.
pub data IsInterrupted : List Event → Type 0 where
  first :
      {side : Side} {x : Interruption} {es : List Event} → IsInterrupted (interrupts side x ∷ es)
  later : {e : Event} {es : List Event} → IsInterrupted es → IsInterrupted (e ∷ es)

module _ {f : Floats} where
  -- `none` where the side does nothing that this interrupts; a timer runs only for a positive timeout. The
  -- message of a wait may have been sent and be still on its way, so a wait may end like this
  -- although the inbox has it.
  unfoldable pub interrupt : Interruption → Script f → Peer f → Option (Peer f)
  unfolding message_type_to_string
  interrupt timed_out (wait type timeout read next) p =
      if ltb_ℤ (pos 0) (timeout p.context)
      then some (
          fail_with (text "Timeout waiting for message: " ++ message_type_to_string (value type)) p)
      else none
  interrupt cancelled (wait type timeout read next) p =
      some (fail_with (text "Operation cancelled.") p)
  interrupt (send_failed what) (send type payload next) p = some (fail_with what p)
  interrupt x script p = none

module _ {f : Floats} (client_around server_around : Surroundings f) where
  unfoldable pub client_interrupted : Pair f → Option (Peer f) → Option (Pair f)
  client_interrupted p none = none
  client_interrupted p (some c) = some (record p { client = c })

  unfoldable pub server_interrupted : Pair f → Option (Peer f) → Option (Pair f)
  server_interrupted p none = none
  server_interrupted p (some s) = some (record p { server = s })

  unfoldable pub happen : Event → Pair f → Option (Pair f)
  unfolding move interrupt client_interrupted server_interrupted
  happen (moves side) p = move client_around server_around side p
  happen (interrupts client_side x) p = client_interrupted p (interrupt x p.client.script p.client)
  happen (interrupts server_side x) p = server_interrupted p (interrupt x p.server.script p.server)

  -- The pair after the events; `none` if one of them cannot happen.
  unfoldable pub run_events : List Event → Pair f → Option (Pair f)
  unfolding happen run_from
  run_events [] p = some p
  run_events (e ∷ es) p = run_from client_around server_around (run_events es) (happen e p)
