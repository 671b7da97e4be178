-- ===== src/Examples/Sessions.antt =====
-- A run of the two sessions that sends two packets each way.
use my_iperf.Prelude.{
  ℕ, ◌≡◌, refl, List, [], ◌∷◌, ◌++◌, map, ◌⊎◌, ◌∙◌, Bool, false, true, length, some, none, arith,
  Option, replicate, ◌+◌,
}
use my_iperf.Result.{ok}
use my_iperf.Stats.{zero_stats}
use my_iperf.ReceiveStats.{reset}
use my_iperf.Config.{Config, set_mode, TestMode}
use my_iperf.Generator.{PacketGenerator, send_packets, reset_stats}
use my_iperf.Generator.Sends.{send_packets_complete, IsBounded}
use my_iperf.RunResult.{State}
use my_iperf.StatsJson.{parse_stats_payload, stats_to_payload}
use my_iperf.StatsJson.RoundTrip.{parse_stats_payload-to_payload}
use my_iperf.Session.Client.{client_session}
use my_iperf.Session.{Context, Surroundings}
use my_iperf.Session.Steps.{Side, move, advance, client_side, run_pair, IsAtRest, Pair}
use my_iperf.Session.Interruptions.{
  Event, moves, interrupts, timed_out, IsInterrupted, interrupt, happen, run_events,
}
use my_iperf.Session.Undisturbed.{AnyFailed, run_events-map}
use my_iperf.Session.Outcome.{start, IsSmooth, IsFinal, IsFinal-IsAtRest, moves_end, sessions_end}
use my_iperf.Session.Verdicts.{sessions_standstill, verdicts_agree, is_success}
use my_iperf.Examples.Inputs.{ticks, small_run, generator, attempts}
use my_iperf.Examples.Texts.{texts}

abbrev around : Surroundings ticks
around = record {
  initialized = true;
  connected = true;
  attempts = attempts;
  send_start = 10;
  send_end = 20;
  attach_time = 5;
  reset_time = 6;
  counted_early = λ s. s;
  counted_late = λ s. s;
}

abbrev fresh : Context ticks
fresh = record {
  state = State.idle;
  config = small_run;
  generator = generator;
  receiver = reset 0;
  client_stats_phase1 = zero_stats ticks;
  server_stats_phase1 = zero_stats ticks;
  client_stats_phase2 = zero_stats ticks;
  server_stats_phase2 = zero_stats ticks;
  reported = [];
}

ends :
    (config : Config) (g : PacketGenerator ℕ)
    → IsBounded config 2 7
    → (send_packets ticks config 10 20 g attempts).ended ≡ true
ends config g h =
    (send_packets_complete ticks config 2 7 10 20 g attempts h (omega arith)
      ((refl, refl), ((refl, refl), ((refl, refl), tt)))).1

smooth : IsSmooth texts around around fresh fresh
unfolding set_mode
smooth = record {
  client_init = refl;
  client_connected = refl;
  server_init = refl;
  server_connected = refl;
  accepted = ground arith;
  ints = ground arith;
  plain = tt;
  client_ends = ends small_run generator (record {
    packets = refl;
    count_positive = omega arith;
    count_int = omega arith;
    size = refl;
  });
  server_ends = ends (set_mode TestMode.server small_run) (reset_stats 10 generator) (record {
    packets = refl;
    count_positive = omega arith;
    count_int = omega arith;
    size = refl;
  });
  client_sent_finite = (tt, tt);
  server_received_finite = (tt, tt);
  client_received_finite = (tt, tt);
  server_sent_finite = (tt, tt);
}

abbrev opening : Pair ticks
opening = start texts around around fresh fresh

abbrev reached_from : Option (Pair ticks) → Pair ticks
reached_from none = opening
reached_from (some p) = p

-- The client has sent its configuration; the server has not moved.
abbrev config_sent : Pair ticks
config_sent = reached_from (run_pair around around (replicate 7 client_side) opening)

config_sent-run : run_pair around around (replicate 7 client_side) opening ≡ some config_sent
unfolding run_pair move advance client_session
config_sent-run = refl

-- Its wait for the answer is then ended by the timer.
abbrev handshake_lost : List Event
handshake_lost = map moves (replicate 7 client_side) ++ interrupts client_side timed_out ∷ []

abbrev given_up : Pair ticks
given_up = reached_from (run_events around around handshake_lost opening)

given_up-run : run_events around around handshake_lost opening ≡ some given_up
unfolding run_events happen move advance interrupt client_session
given_up-run = refl

given_up_state : given_up.client.context.state ≡ State.errored
unfolding run_events happen move advance interrupt client_session
given_up_state = refl

sessions_end_example :
    (IsInterrupted (map moves (replicate 7 client_side)) × AnyFailed config_sent)
    ⊎ ((left : List Side) × (n : Pair ticks) × (run_pair around around left config_sent ≡ some n)
        × IsFinal texts around around fresh fresh n
        × (7 + length left ≡ 57))
sessions_end_example =
    sessions_end texts around around fresh fresh smooth (map moves (replicate 7 client_side))
      config_sent (run_events-map around around (replicate 7 client_side) opening ∙ config_sent-run)

opening-run : run_pair around around [] opening ≡ some opening
unfolding run_pair
opening-run = refl

abbrev ending : Pair ticks
ending = (moves_end texts around around fresh fresh smooth [] opening opening-run).1

abbrev whole_run : List Side
whole_run = (moves_end texts around around fresh fresh smooth [] opening opening-run).0

ending-run : run_events around around (map moves whole_run) opening ≡ some ending
ending-run =
    run_events-map around around whole_run opening
    ∙ (moves_end texts around around fresh fresh smooth [] opening opening-run).2

ending-IsAtRest : IsAtRest around around ending
ending-IsAtRest =
    IsFinal-IsAtRest texts around around fresh fresh ending
      (moves_end texts around around fresh fresh smooth [] opening opening-run).3

sessions_standstill_example :
    (IsInterrupted (map moves whole_run) × AnyFailed ending)
    ⊎ IsFinal texts around around fresh fresh ending
sessions_standstill_example =
    sessions_standstill texts around around fresh fresh smooth (map moves whole_run) ending
      ending-run ending-IsAtRest

abbrev client_success : Bool
client_success =
    is_success texts around around fresh fresh [] ending.client.failure [] [] ending.client.context

abbrev server_success : Bool
server_success =
    is_success texts around around fresh fresh [] ending.server.failure [] [] ending.server.context

verdicts_agree_example :
    (client_success ≡ server_success)
    ⊎ (IsInterrupted (map moves whole_run)
        × (((ending.client.context.state ≡ State.errored) × (client_success ≡ false))
            ⊎ ((ending.server.context.state ≡ State.errored) × (server_success ≡ false))))
verdicts_agree_example =
    verdicts_agree texts around around fresh fresh smooth (map moves whole_run) ending [] [] [] []
      [] [] ending-run ending-IsAtRest

parse_stats_payload-to_payload_example :
    parse_stats_payload texts (stats_to_payload texts (zero_stats ticks)) ≡ ok (zero_stats ticks)
parse_stats_payload-to_payload_example =
    parse_stats_payload-to_payload texts (zero_stats ticks) tt tt
