-- ===== src/Session/Walk.antt =====
-- Runs of the two sessions that nothing disturbs, as derivations.
use my_iperf.Prelude.{◌≡◌, refl, ap, ◌∙◌, Text, ◌++◌, Bool, true, List, [], ◌∷◌, some}
use my_iperf.Prelude.Int.{ℤ}
use my_iperf.Result.{Result, ok, ◌>>=◌}
use my_iperf.Json.{JsonLib}
use my_iperf.Protocol.{MessageType}
use my_iperf.Stats.{Floats, TestStats}
use my_iperf.StatsJson.{TextLib, stats_to_payload, parse_stats_payload}
use my_iperf.Config.{Config}
use my_iperf.Generator.{PacketGenerator, send_packets}
use my_iperf.Session.{Context, Surroundings, Script, act, require, generate, send, wait}
use my_iperf.Session.Steps.{
  Post, Peer, advance, take_first, Side, client_side, server_side, Pair, move, deliver_to, go_on,
  run_pair, client_moves, server_moves, run_from, after_sending, after_waiting,
}

module _ {f : Floats} where
  abbrev pub at_work : Script f → Context f → List Post → Text → Peer f
  at_work script c inbox failure = record {
    script = script;
    context = c;
    inbox = inbox;
    failure = failure;
  }

  abbrev pub peer : Script f → Context f → Peer f
  peer script context = at_work script context [] []

  abbrev pub both : Script f → Script f → Context f → Context f → Pair f
  both client_script server_script c s = record {
    client = peer client_script c;
    server = peer server_script s;
  }

  abbrev pub sending : Surroundings f → Config → PacketGenerator f.Real → PacketGenerator f.Real
  sending a config g = (send_packets f config a.send_start a.send_end g a.attempts).generator

  abbrev pub HasEnded : Surroundings f → Config → PacketGenerator f.Real → Type 0
  HasEnded a config g = (send_packets f config a.send_start a.send_end g a.attempts).ended ≡ true

  -- The steps of one side that do not fail: from where, to where, and what is sent.
  pub data Does (around : Surroundings f) : Peer f → Peer f → List Post → Type 0 where
    acts :
        {change : Context f → Context f} {next : Script f} {c : Context f} {inbox : List Post}
        {failure : Text}
        → Does around
            (at_work (act change next) c inbox failure)
            (at_work next (change c) inbox failure)
            []
    requires :
        {b : Bool} {message : Text} {next : Script f} {c : Context f} {inbox : List Post}
        {failure : Text}
        → b ≡ true
        → Does around
            (at_work (require b message next) c inbox failure)
            (at_work next c inbox failure)
            []
    generates :
        {next : Script f} {c : Context f} {inbox : List Post} {failure : Text}
        → HasEnded around c.config c.generator
        → Does around
            (at_work (generate next) c inbox failure)
            (at_work next
              (record c { generator = sending around c.config c.generator })
              inbox
              failure)
            []
    sends :
        {type : MessageType} {payload : Context f → Text} {next : Script f} {c : Context f}
        {inbox : List Post} {failure : Text}
        → Does around
            (at_work (send type payload next) c inbox failure)
            (at_work next c inbox failure)
            ((type, payload c) ∷ [])
    reads :
        {type : MessageType} {timeout : Context f → ℤ}
        {read : Text → Context f → Result (Context f)} {next : Script f} {c c' : Context f}
        {inbox rest : List Post} {failure payload : Text}
        → take_first type inbox ≡ some (payload, rest)
        → read payload c ≡ ok c'
        → Does around
            (at_work (wait type timeout read next) c inbox failure)
            (at_work next c' rest failure)
            []

  Does-advance :
      {around : Surroundings f} {p q : Peer f} {out : List Post}
      → Does around p q out
      → advance around p.script p ≡ some (q, out)
  unfolding advance after_sending after_waiting
  Does-advance acts = refl
  Does-advance (requires {b} {message} {next} {c} {inbox} {failure} e) = rw e refl
  Does-advance {around} (generates {next} {c} {inbox} {failure} e) =
      ap
        (λ t. after_sending t (
          at_work next (record c { generator = sending around c.config c.generator }) inbox
            failure))
        e
  Does-advance sends = refl
  Does-advance
        (reads {type} {timeout} {read} {next} {c} {c'} {inbox} {rest} {failure} {payload} found e) =
      ap (after_waiting read next (at_work (wait type timeout read next) c inbox failure)) found
      ∙ ap (λ r. some (go_on r next (at_work (wait type timeout read next) c rest failure), [])) e

module _ {f : Floats} {lib : JsonLib} (texts : TextLib f lib) where
  -- The other side reads the statistics that were sent.
  abbrev pub IsReadBack : TestStats f.Real → Type 0
  IsReadBack s = parse_stats_payload texts (stats_to_payload texts s) ≡ ok s

  pub reads_stats :
      {around : Surroundings f} {type : MessageType} {timeout : Context f → ℤ}
      (set : TestStats f.Real → Context f → Context f) {next : Script f} {c : Context f}
      {inbox rest : List Post} {failure : Text} {s : TestStats f.Real}
      → take_first type inbox ≡ some (stats_to_payload texts s, rest)
      → IsReadBack s
      → Does around
          (at_work
            (wait type timeout
              (λ payload c. parse_stats_payload texts payload >>= λ stats. ok (set stats c))
              next)
            c
            inbox
            failure)
          (at_work next (set s c) rest failure)
          []
  reads_stats {around} {type} {timeout} set {next} {c} found e =
      reads found (ap (λ r. r >>= λ stats. ok (set stats c)) e)

module _ {f : Floats} (client_around server_around : Surroundings f) where
  -- A run of the pair, with the states it passes through.
  pub data Walk : List Side → Pair f → Pair f → Type 0 where
    stop : {p : Pair f} → Walk [] p p
    client_goes :
        {c c' s : Peer f} {n : Pair f} {sides : List Side} {out : List Post}
        → Does client_around c c' out
        → Walk sides (record { client = c'; server = deliver_to out s }) n
        → Walk (client_side ∷ sides) (record { client = c; server = s }) n
    server_goes :
        {c s s' : Peer f} {n : Pair f} {sides : List Side} {out : List Post}
        → Does server_around s s' out
        → Walk sides (record { client = deliver_to out c; server = s' }) n
        → Walk (server_side ∷ sides) (record { client = c; server = s }) n

  pub Walk-append : {a b : List Side} {p q r : Pair f} → Walk a p q → Walk b q r → Walk (a ++ b) p r
  Walk-append stop w = w
  Walk-append (client_goes d v) w = client_goes d (Walk-append v w)
  Walk-append (server_goes d v) w = server_goes d (Walk-append v w)

  pub Walk-run_pair :
      {sides : List Side} {p q : Pair f}
      → Walk sides p q
      → run_pair client_around server_around sides p ≡ some q
  unfolding run_pair run_from move client_moves server_moves
  Walk-run_pair stop = refl
  Walk-run_pair (client_goes {c} {c'} {s} {n} {sides} d w) =
      ap
        (λ x.
          run_from client_around server_around (run_pair client_around server_around sides)
            (client_moves client_around server_around (record { client = c; server = s }) x))
        (Does-advance d)
      ∙ Walk-run_pair w
  Walk-run_pair (server_goes {c} {s} {s'} {n} {sides} d w) =
      ap
        (λ x.
          run_from client_around server_around (run_pair client_around server_around sides)
            (server_moves client_around server_around (record { client = c; server = s }) x))
        (Does-advance d)
      ∙ Walk-run_pair w
