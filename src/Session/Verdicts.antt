-- ===== src/Session/Verdicts.antt =====
-- The results that the two sides report of the same run.
use my_iperf.Prelude.{
  ◌≡◌, refl, ap, subst, Text, Bool, false, ◌⊎◌, inl, inr, List, [], ◌∷◌, Option, some,
}
use my_iperf.Json.{JsonLib}
use my_iperf.Stats.{Floats, TestStats}
use my_iperf.StatsJson.{TextLib}
use my_iperf.Config.{Config, set_mode, TestMode}
use my_iperf.RunResult.{State, Snapshot, build_current_result, validate_receiver_stats}
use my_iperf.Session.{Context, Surroundings}
use my_iperf.Session.Steps.{Side, Pair, run_pair, IsAtRest, run_from}
use my_iperf.Session.Interruptions.{Event, IsInterrupted, run_events}
use my_iperf.Session.Undisturbed.{AnyFailed}
use my_iperf.Session.Outcome.{
  start, IsSmooth, IsFinal, server_received, client_received, sessions_end,
}

module _ {f : Floats} {lib : JsonLib} (texts : TextLib f lib)
    (client_around server_around : Surroundings f) (c s : Context f) where
  abbrev runs : List Side → Pair f → Option (Pair f)
  runs = run_pair client_around server_around

  abbrev Final : Pair f → Type 0
  Final = IsFinal texts client_around server_around c s

  rest-IsFinal :
      (m n : Pair f) (left : List Side)
      → IsAtRest client_around server_around m
      → runs left m ≡ some n
      → Final n
      → Final m
  unfolding run_pair run_from
  rest-IsFinal m n [] rest e h = let same : n ≡ m = cc in subst (λ x. Final x) same h
  rest-IsFinal m n (side ∷ left) rest e h =
      let stuck = ap (run_from client_around server_around (runs left)) (rest side) in cc

  -- When nothing goes wrong around the two sides, they cannot come to a standstill before the end:
  -- where neither can move, both are FINISHED and hold the same statistics, or the timer of a wait, a
  -- cancellation or a send that threw has ended a side in ERRORED.
  pub sessions_standstill :
      IsSmooth texts client_around server_around c s
      → (past : List Event) (m : Pair f)
      → run_events client_around server_around past (start texts client_around server_around c s)
        ≡ some m
      → IsAtRest client_around server_around m
      → (IsInterrupted past × AnyFailed m) ⊎ IsFinal texts client_around server_around c s m
  sessions_standstill h past m e rest =
      elim (sessions_end texts client_around server_around c s h past m e) [
        | inl failed ↦ inl failed
        | inr (left, n, hl, fin, len) ↦ inr (rest-IsFinal m n left rest hl fin)
      ]

  -- What `buildCurrentResult` reads of a side.
  abbrev pub snapshot_of : Text → Text → Text → Context f → Snapshot f.Real
  snapshot_of run_id started_at warning x = record {
    run_id = run_id;
    started_at = started_at;
    result_export_warning = warning;
    state = x.state;
    config = x.config;
    client_stats_phase1 = x.client_stats_phase1;
    server_stats_phase1 = x.server_stats_phase1;
    client_stats_phase2 = x.client_stats_phase2;
    server_stats_phase2 = x.server_stats_phase2;
  }

  -- The mode of a configuration does not matter to the verdict on a receiver.
  validate-set_mode :
      (t : TestStats f.Real) (config : Config) (mode : TestMode)
      → validate_receiver_stats t (set_mode mode config) ≡ validate_receiver_stats t config
  unfolding validate_receiver_stats set_mode
  validate-set_mode t config mode = refl

  abbrev pub is_success : Text → Text → Text → Text → Context f → Bool
  is_success now failure run_id started x =
      (build_current_result now failure (snapshot_of run_id started [] x)).success

  Final-is_success :
      (m : Pair f) (now now' run_id run_id' started started' : Text)
      → Final m
      → is_success now m.client.failure run_id started m.client.context
        ≡ is_success now' m.server.failure run_id' started' m.server.context
  unfolding build_current_result
  Final-is_success m now now' run_id run_id' started started' fin =
      let same = validate-set_mode in
      rw (
        fin.client_state,
        fin.server_state,
        fin.client_config,
        fin.server_config_kept,
        fin.client_stats.1,
        fin.client_stats.2,
        fin.server_stats.1,
        fin.server_stats.2,
        same (server_received texts client_around server_around c s) c.config TestMode.server,
        same (client_received texts client_around server_around c s) c.config TestMode.server,
      )

  -- A side in ERRORED reports a failure.
  errored-is_success :
      (x : Context f) (now failure run_id started : Text)
      → x.state ≡ State.errored
      → is_success now failure run_id started x ≡ false
  unfolding build_current_result
  errored-is_success x now failure run_id started e = rw e

  -- When nothing goes wrong around the two sides and neither can move any more, the results that the
  -- client and the server report agree on whether the run was a success; or the timer of a wait, a
  -- cancellation or a send that threw has ended a side in ERRORED, and that side reports a failure.
  pub verdicts_agree :
      IsSmooth texts client_around server_around c s
      → (past : List Event) (m : Pair f) (now now' run_id run_id' started started' : Text)
      → run_events client_around server_around past (start texts client_around server_around c s)
        ≡ some m
      → IsAtRest client_around server_around m
      → let client_success = is_success now m.client.failure run_id started m.client.context in
        let server_success = is_success now' m.server.failure run_id' started' m.server.context in
        (client_success ≡ server_success)
        ⊎ (IsInterrupted past
            × (((m.client.context.state ≡ State.errored) × (client_success ≡ false))
                ⊎ ((m.server.context.state ≡ State.errored) × (server_success ≡ false))))
  verdicts_agree h past m now now' run_id run_id' started started' e rest =
      elim (sessions_standstill h past m e rest) [
        | inr fin ↦ inl (Final-is_success m now now' run_id run_id' started started' fin)
        | inl (i, inl k) ↦ inr (
          i,
          inl (k.1, errored-is_success m.client.context now m.client.failure run_id started k.1),
        )
        | inl (i, inr k) ↦ inr (
          i,
          inr (k.1, errored-is_success m.server.context now' m.server.failure run_id' started' k.1),
        )
      ]
