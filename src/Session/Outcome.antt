-- ===== src/Session/Outcome.antt =====
-- What the two sessions come to when nothing goes wrong around them, whatever the order of their steps.
use my_iperf.Prelude.{
  ◌+◌, ◌≡◌, ◌⊎◌, inl, inr, refl, ap, ◌++◌, true, List, [], ◌∷◌, some, length, arith,
}
use my_iperf.Json.{JsonLib}
use my_iperf.Stats.{Floats, TestStats}
use my_iperf.StatsJson.{TextLib, parse_json_payload}
use my_iperf.StatsJson.RoundTrip.{parse_stats_payload-to_payload}
use my_iperf.ReceiveStats.{snapshot, reset}
use my_iperf.Config.{Config, to_json, set_mode, TestMode}
use my_iperf.Config.Accepted.{IsAccepted}
use my_iperf.Config.RoundTrip.{IsIntConfig, from_json-to_json}
use my_iperf.Generator.{get_stats, reset_stats, save_last_stats}
use my_iperf.RunResult.{State}
use my_iperf.Session.{Context, Surroundings, finished}
use my_iperf.Session.Client.{client_session}
use my_iperf.Session.Server.{server_session}
use my_iperf.Session.Steps.{
  Side, client_side, server_side, Pair, advance, move, run_pair, IsAtRest, client_moves,
  server_moves,
}
use my_iperf.Session.Interruptions.{Event, IsInterrupted, run_events}
use my_iperf.Session.Undisturbed.{AnyFailed, run_events-Moves}
use my_iperf.Session.Confluence.{run_pair-ends}
use my_iperf.Session.Walk.{both, sending, HasEnded, IsReadBack, Walk, Walk-append, Walk-run_pair}
use my_iperf.Session.Phases.{
  handshake_turns, phase1_turns, phase2_turns, shutdown_turns, handshake, phase1, phase2, shutdown,
}

abbrev turns : List Side
turns = handshake_turns ++ phase1_turns ++ phase2_turns ++ shutdown_turns

module _ {f : Floats} {lib : JsonLib} (texts : TextLib f lib)
    (client_around server_around : Surroundings f) (c s : Context f) where
  -- The two sides before their first step.
  abbrev pub start : Pair f
  start = both (client_session texts client_around) (server_session texts server_around) c s

  -- The configuration that the server takes over.
  abbrev pub server_config : Config
  server_config = set_mode TestMode.server c.config

  abbrev pub client_sent : TestStats f.Real
  client_sent = get_stats f (sending client_around c.config c.generator)

  abbrev pub server_received : TestStats f.Real
  server_received = snapshot f (server_around.counted_late (reset server_around.reset_time))

  abbrev pub client_received : TestStats f.Real
  client_received = snapshot f (client_around.counted_late (reset client_around.reset_time))

  abbrev pub server_sent : TestStats f.Real
  server_sent =
      get_stats f
        (sending server_around server_config (reset_stats server_around.send_start s.generator))

  abbrev IsFiniteStats : TestStats f.Real → Type 0
  IsFiniteStats t = texts.IsFinite t.duration × texts.IsFinite t.throughput_mbps

  -- Nothing goes wrong around the two sides: the network calls succeed, the generators end, the
  -- configuration is one that the setters take and that a text can carry, and so are the statistics.
  pub record IsSmooth : Type 0 where
    pub client_init : client_around.initialized ≡ true
    pub client_connected : client_around.connected ≡ true
    pub server_init : server_around.initialized ≡ true
    pub server_connected : server_around.connected ≡ true
    pub accepted : IsAccepted c.config
    pub ints : IsIntConfig c.config
    pub plain : texts.IsPlain (to_json lib c.config)
    pub client_ends : HasEnded client_around c.config c.generator
    pub server_ends :
        HasEnded server_around server_config (reset_stats server_around.send_start s.generator)
    pub client_sent_finite : IsFiniteStats client_sent
    pub server_received_finite : IsFiniteStats server_received
    pub client_received_finite : IsFiniteStats client_received
    pub server_sent_finite : IsFiniteStats server_sent

  -- What both sides hold in the end.
  abbrev HasStats : Context f → Type 0
  HasStats x =
      (x.client_stats_phase1 ≡ client_sent)
      × (x.server_stats_phase1 ≡ server_received)
      × (x.client_stats_phase2 ≡ client_received)
      × (x.server_stats_phase2 ≡ server_sent)

  pub record IsFinal (p : Pair f) : Type 0 where
    pub client_finished : p.client.script ≡ finished
    pub server_finished : p.server.script ≡ finished
    pub client_state : p.client.context.state ≡ State.finished
    pub server_state : p.server.context.state ≡ State.finished
    pub client_failure : p.client.failure ≡ []
    pub server_failure : p.server.failure ≡ []
    pub client_stats : HasStats p.client.context
    pub server_stats : HasStats p.server.context
    pub client_config : p.client.context.config ≡ c.config
    pub server_config_kept : p.server.context.config ≡ server_config
    pub client_reported : p.client.context.reported ≡ 2 ∷ 1 ∷ c.reported
    pub server_reported : p.server.context.reported ≡ 2 ∷ 1 ∷ s.reported

  read_back : (t : TestStats f.Real) → IsFiniteStats t → IsReadBack texts t
  read_back t h = parse_stats_payload-to_payload texts t h.0 h.1

  walk_all :
      (h : IsSmooth) → (n : Pair f) × Walk client_around server_around turns start n × IsFinal n
  unfolding client_session server_session get_stats save_last_stats parse_json_payload
  walk_all h = (
    _,
    Walk-append client_around server_around
        (handshake texts client_around server_around c s _ _ h.client_init h.client_connected
          h.server_init h.server_connected (texts.parse-dump _ h.plain)
          (from_json-to_json lib c.config h.accepted h.ints))
        (Walk-append client_around server_around
          (phase1 texts client_around server_around _ _ _ _ h.client_ends
            (read_back _ h.client_sent_finite) (read_back _ h.server_received_finite))
          (Walk-append client_around server_around
            (phase2 texts client_around server_around _ _ _ _ h.server_ends
              (read_back _ h.client_received_finite) (read_back _ h.server_sent_finite))
            (shutdown texts client_around server_around _ _))),
    record {
      client_finished = refl;
      server_finished = refl;
      client_state = refl;
      server_state = refl;
      client_failure = refl;
      server_failure = refl;
      client_stats = (refl, refl, refl, refl);
      server_stats = (refl, refl, refl, refl);
      client_config = refl;
      server_config_kept = refl;
      client_reported = refl;
      server_reported = refl;
    },
  )

  pub IsFinal-IsAtRest : (p : Pair f) → IsFinal p → IsAtRest client_around server_around p
  unfolding move advance client_moves server_moves
  IsFinal-IsAtRest p h client_side =
      ap (λ t. client_moves client_around server_around p (advance client_around t p.client))
        h.client_finished
  IsFinal-IsAtRest p h server_side =
      ap (λ t. server_moves client_around server_around p (advance server_around t p.server))
        h.server_finished

  -- Moves that nothing interrupts.
  pub moves_end :
      IsSmooth
      → (past : List Side) (m : Pair f) → run_pair client_around server_around past start ≡ some m
      → (left : List Side) × (n : Pair f) × (run_pair client_around server_around left m ≡ some n)
        × IsFinal n
        × (length past + length left ≡ 57)
  moves_end h past m hm =
      let (n, w, fin) = walk_all h in
      let run = Walk-run_pair client_around server_around w in
      let (left, hl, len) =
        run_pair-ends client_around server_around turns past start m n run (IsFinal-IsAtRest n fin)
          hm in
      (left, n, hl, fin, omega arith)

  -- When nothing goes wrong around the two sides, then wherever the sessions have got to, in whatever
  -- order they moved: if no wait was ended by its timer or by a cancellation and no send threw, they can
  -- go on, without any of these, until both have finished, after 57 steps in all; and in the end both
  -- are in the state FINISHED without a failure, have reported both phases, and hold the same four
  -- statistics: what each generator sent and what each receiver counted. If there was such an
  -- exception, a side has ended in ERRORED.
  pub sessions_end :
      IsSmooth
      → (past : List Event) (m : Pair f)
      → run_events client_around server_around past start ≡ some m
      → (IsInterrupted past × AnyFailed m)
        ⊎ ((left : List Side) × (n : Pair f) × (run_pair client_around server_around left m
              ≡ some n)
            × IsFinal n
            × (length past + length left ≡ 57))
  sessions_end h past m hm = elim (run_events-Moves client_around server_around past start m hm) [
    | inl failed ↦ inl failed
    | inr (sides, run, same) ↦
        let (left, n, hl, fin, len) = moves_end h sides m run in inr (left, n, hl, fin, omega arith)
  ]
