-- ===== src/Session.antt =====
-- MyIperf/src/myiperf/{ClientTestSession,ServerTestSession,ControlChannel,TestSessionContext}: the
-- coroutines of the two sides. A script is what a coroutine still has to do, up to its next
-- suspension; `Client` and `Server` hold the two scripts, `Steps` runs them. The message bus is taken
-- by its contract: a wait gets the first message of its type that has not been taken.
pub mod Client
pub mod Server
pub mod Steps
pub mod Interruptions
pub mod Undisturbed
pub mod Confluence
pub mod Walk
pub mod Phases
pub mod Outcome
pub mod Verdicts
use my_iperf.Prelude.{ℕ, ◌≡◌, Text, Bool, List, [], ◌∷◌, Option, none, some, if◌then◌else◌}
use my_iperf.Prelude.Int.{ℤ}
use my_iperf.Result.{Result}
use my_iperf.Protocol.{MessageType}
use my_iperf.Stats.{Floats, TestStats, zero_stats}
use my_iperf.ReceiveStats.{PacketReceiveStats, reset}
use my_iperf.Config.{Config, default_config}
use my_iperf.Generator.{PacketGenerator, Attempt}
use my_iperf.RunResult.{State}

-- `TestSessionContext`: the objects that a session refers to. `reported` lists the phases that
-- `notifyPhaseComplete` was called for.
pub record Context (f : Floats) : Type 0 where
  pub state : State
  pub config : Config
  pub generator : PacketGenerator f.Real
  pub receiver : PacketReceiveStats
  pub client_stats_phase1 : TestStats f.Real
  pub server_stats_phase1 : TestStats f.Real
  pub client_stats_phase2 : TestStats f.Real
  pub server_stats_phase2 : TestStats f.Real
  pub reported : List ℕ

-- What happens to one side: the results of the network calls, the sends of its generator and the
-- clock, and what its receiver's thread counts before and after the session resets the counters.
pub record Surroundings (f : Floats) : Type 0 where
  pub initialized : Bool
  pub connected : Bool
  pub attempts : List Attempt
  pub send_start : ℕ
  pub send_end : ℕ
  pub attach_time : ℕ
  pub reset_time : ℕ
  pub counted_early : PacketReceiveStats → PacketReceiveStats
  pub counted_late : PacketReceiveStats → PacketReceiveStats

pub data Script (f : Floats) : Type 0 where
  finished : Script f
  -- code that does not wait
  act : (Context f → Context f) → Script f → Script f
  -- `if (!result) fail(message);`
  require : Bool → Text → Script f → Script f
  -- `co_await generator.sendPackets(config);`
  generate : Script f → Script f
  -- `co_await control.send(type, payload);`
  send : MessageType → (Context f → Text) → Script f → Script f
  -- `co_await control.waitFor(type, timeout);` and the reading of the message
  wait :
      MessageType → (Context f → ℤ) → (Text → Context f → Result (Context f)) → Script f → Script f

module _ {f : Floats} where
  abbrev pub transition_to : State → Script f → Script f
  transition_to s = act (λ c. record c { state = s })

  abbrev pub notify_phase_complete : ℕ → Script f → Script f
  notify_phase_complete n = act (λ c. record c { reported = n ∷ c.reported })

  -- `control.attachReceiver(receiver)`: the receiver starts, with its counters at zero.
  abbrev pub start_receiver : Surroundings f → Script f → Script f
  start_receiver around =
      act (λ c. record c { receiver = around.counted_early (reset around.attach_time) })
