-- ===== src/Session/Steps.antt =====
-- MyIperf/src/myiperf/TestController.cpp (`runTestCoroutine`) and the suspension points of the two
-- sessions: the steps of each side and of the pair in which no wait or send throws; what throws is in
-- `Interruptions`. The network keeps the order of what a side sends.
use my_iperf.Prelude.{
  ◌≡◌, Text, ◌++◌, Bool, true, false, List, [], ◌∷◌, Option, none, some, ◌==◌, if◌then◌else◌,
}
use my_iperf.Result.{Result, ok, throw}
use my_iperf.Protocol.{MessageType, value}
use my_iperf.Stats.{Floats}
use my_iperf.Generator.{send_packets}
use my_iperf.RunResult.{State}
use my_iperf.Session.{Context, Surroundings, Script, finished, act, require, generate, send, wait}

abbrev pub Post : Type 0
Post = MessageType × Text

-- One side: `inbox` holds the messages that were sent to it and that no wait has taken, on their way or
-- in its bus, and `failure` is the `failureReason` of `runTestCoroutine`.
pub record Peer (f : Floats) : Type 0 where
  pub script : Script f
  pub context : Context f
  pub inbox : List Post
  pub failure : Text

-- The first message of the type, and the others.
unfoldable pub take_first : MessageType → List Post → Option (Text × List Post)
take_first type [] = none
take_first type ((other, payload) ∷ posts) =
    let found = take_first type posts in
    if value other == value type
    then some (payload, posts)
    else elim found [ none ↦ none | some (later, rest) ↦ some (later, (other, payload) ∷ rest) ]

module _ {f : Floats} where
  -- The handler of `runTestCoroutine`: an exception ends the session.
  abbrev pub fail_with : Text → Peer f → Peer f
  fail_with what p = record p {
    script = finished;
    context = record p.context { state = State.errored };
    failure = what;
  }

  abbrev pub go_on : Result (Context f) → Script f → Peer f → Peer f
  go_on (ok c) next p = record p { script = next; context = c }
  go_on (throw what) next p = fail_with what p

  abbrev pub deliver_to : List Post → Peer f → Peer f
  deliver_to posts p = record p { inbox = p.inbox ++ posts }

  -- The coroutine goes on once the generator has ended.
  unfoldable pub after_sending : Bool → Peer f → Option (Peer f × List Post)
  after_sending true p = some (p, [])
  after_sending false p = none

  -- The coroutine goes on once there is a message for it.
  unfoldable pub after_waiting :
      (Text → Context f → Result (Context f))
      → Script f
      → Peer f
      → Option (Text × List Post)
      → Option (Peer f × List Post)
  after_waiting read next p none = none
  after_waiting read next p (some (payload, rest)) =
      some (go_on (read payload p.context) next (record p { inbox = rest }), [])

  -- One step of a side and what it sends; `none` if it waits or has finished.
  unfoldable pub advance : Surroundings f → Script f → Peer f → Option (Peer f × List Post)
  unfolding take_first after_sending after_waiting
  advance around finished p = none
  advance around (act change next) p =
      some (record p { script = next; context = change p.context }, [])
  advance around (require result message next) p =
      some (if result then record p { script = next } else fail_with message p, [])
  advance around (generate next) p =
      let s =
        send_packets f p.context.config around.send_start around.send_end p.context.generator
          around.attempts in
      let c = record p.context { generator = s.generator } in
      after_sending s.ended (record p { script = next; context = c })
  advance around (send type payload next) p =
      some (record p { script = next }, (type, payload p.context) ∷ [])
  advance around (wait type timeout read next) p =
      after_waiting read next p (take_first type p.inbox)

pub data Side : Type 0 where
  client_side server_side : Side

pub record Pair (f : Floats) : Type 0 where
  pub client : Peer f
  pub server : Peer f

module _ {f : Floats} (client_around server_around : Surroundings f) where
  unfoldable pub client_moves : Pair f → Option (Peer f × List Post) → Option (Pair f)
  client_moves p none = none
  client_moves p (some (c, posts)) =
      some (record { client = c; server = deliver_to posts p.server })

  unfoldable pub server_moves : Pair f → Option (Peer f × List Post) → Option (Pair f)
  server_moves p none = none
  server_moves p (some (s, posts)) =
      some (record { client = deliver_to posts p.client; server = s })

  unfoldable pub move : Side → Pair f → Option (Pair f)
  unfolding client_moves server_moves
  move client_side p = client_moves p (advance client_around p.client.script p.client)
  move server_side p = server_moves p (advance server_around p.server.script p.server)

  unfoldable pub run_from : (Pair f → Option (Pair f)) → Option (Pair f) → Option (Pair f)
  run_from rest none = none
  run_from rest (some p) = rest p

  -- The sides move in the order of the schedule; `none` if one of them cannot.
  unfoldable pub run_pair : List Side → Pair f → Option (Pair f)
  unfolding run_from
  run_pair [] p = some p
  run_pair (side ∷ sides) p = run_from (run_pair sides) (move side p)

  -- No side can move.
  abbrev pub IsAtRest : Pair f → Type 0
  IsAtRest p = (side : Side) → move side p ≡ none
