-- ===== src/Session/Phases.antt =====
-- The phases of the two sessions when nothing goes wrong around them: what each leaves behind.
use my_iperf.Prelude.{◌≡◌, refl, ◌++◌, true, List, [], ◌∷◌, replicate}
use my_iperf.Result.{ok}
use my_iperf.Json.{JsonLib}
use my_iperf.Protocol.{MessageType}
use my_iperf.Stats.{Floats}
use my_iperf.StatsJson.{TextLib, parse_json_payload}
use my_iperf.ReceiveStats.{reset, snapshot, PacketReceiveStats}
use my_iperf.Config.{to_json, from_json, set_mode, TestMode}
use my_iperf.Generator.{PacketGenerator, get_stats, save_last_stats, reset_stats}
use my_iperf.RunResult.{State}
use my_iperf.Session.{Context, Surroundings, Script, transition_to, finished, send, wait}
use my_iperf.Session.Client.{
  default_timeout, read_server_stats1, read_server_stats2, connect_and_handshake,
  run_client_to_server_phase as client_phase1, run_server_to_client_phase as client_phase2,
}
use my_iperf.Session.Server.{
  receive_config, read_client_stats1, read_client_stats2, accept_and_receive_config,
  run_client_to_server_phase as server_phase1, run_server_to_client_phase as server_phase2,
}
use my_iperf.Session.Steps.{Side, client_side, server_side, take_first}
use my_iperf.Session.Walk.{
  both, sending, HasEnded, IsReadBack, reads_stats, acts, requires, generates, sends, reads, Walk,
  stop, client_goes, server_goes,
}

-- The two sides take turns, each moving until it has to wait.
abbrev pub handshake_turns : List Side
handshake_turns = replicate 7 client_side ++ replicate 7 server_side ++ replicate 1 client_side

abbrev pub phase1_turns : List Side
phase1_turns =
    replicate 5 client_side
    ++ replicate 5 server_side
    ++ replicate 3 client_side
    ++ replicate 4 server_side
    ++ replicate 2 client_side

abbrev pub phase2_turns : List Side
phase2_turns =
    replicate 3 client_side
    ++ replicate 6 server_side
    ++ replicate 4 client_side
    ++ replicate 4 server_side
    ++ replicate 2 client_side

abbrev pub shutdown_turns : List Side
shutdown_turns = replicate 2 client_side ++ replicate 2 server_side

module _ {f : Floats} {lib : JsonLib} (texts : TextLib f lib)
    (client_around server_around : Surroundings f) where
  receive_config-ok :
      (c s : Context f)
      → parse_json_payload texts (texts.dump (to_json lib c.config)) ≡ ok (to_json lib c.config)
      → from_json lib (to_json lib c.config) ≡ ok c.config
      → receive_config texts server_around (texts.dump (to_json lib c.config)) s
        ≡ ok (record s { config = set_mode TestMode.server c.config })
  unfolding receive_config
  receive_config-ok c s parsed configured = rw (parsed, configured)

  module _ (c s : Context f) where
    pub handshake :
        (client_next server_next : Script f)
        → client_around.initialized ≡ true
        → client_around.connected ≡ true
        → server_around.initialized ≡ true
        → server_around.connected ≡ true
        → parse_json_payload texts (texts.dump (to_json lib c.config)) ≡ ok (to_json lib c.config)
        → from_json lib (to_json lib c.config) ≡ ok c.config
        → Walk client_around server_around handshake_turns
            (both
              (connect_and_handshake texts client_around client_next)
              (accept_and_receive_config texts server_around server_next)
              c
              s)
            (both client_next server_next
              (record c {
                state = State.waiting_for_ack;
                receiver = client_around.counted_early (reset client_around.attach_time);
              })
              (record s {
                state = State.waiting_for_config;
                config = set_mode TestMode.server c.config;
                receiver = server_around.counted_early (reset server_around.attach_time);
              }))
    unfolding take_first connect_and_handshake accept_and_receive_config
    handshake client_next server_next i1 c1 i2 c2 parsed configured = client_goes acts (
        client_goes (requires i1) (
          client_goes (requires c1) (
            client_goes acts (
              client_goes acts (
                client_goes sends (
                  client_goes acts (
                    server_goes (requires i2) (
                      server_goes acts (
                        server_goes (requires c2) (
                          server_goes acts (
                            server_goes acts (
                              server_goes
                                (reads refl (
                                  receive_config-ok c
                                    (record s {
                                      state = State.waiting_for_config;
                                      receiver =
                                          server_around.counted_early
                                            (reset server_around.attach_time);
                                    })
                                    parsed configured))
                                (server_goes sends (client_goes (reads refl refl) stop))))))))))))))

    abbrev pub saved_generator : PacketGenerator f.Real
    saved_generator =
        let g = sending client_around c.config c.generator in save_last_stats (get_stats f g) g

    abbrev pub received : Surroundings f → PacketReceiveStats
    received a = a.counted_late (reset a.reset_time)

    pub phase1 :
        (client_next server_next : Script f)
        → HasEnded client_around c.config c.generator
        → IsReadBack texts (get_stats f saved_generator)
        → IsReadBack texts (snapshot f (received server_around))
        → Walk client_around server_around phase1_turns
            (both
              (client_phase1 texts client_around client_next)
              (server_phase1 texts server_around server_next)
              c
              s)
            (both client_next server_next
              (record c {
                state = State.exchanging_stats;
                generator = saved_generator;
                client_stats_phase1 = saved_generator.last_stats;
                server_stats_phase1 = snapshot f (received server_around);
                reported = 1 ∷ c.reported;
              })
              (record s {
                state = State.waiting_for_client_ready;
                receiver = received server_around;
                client_stats_phase1 = get_stats f saved_generator;
                server_stats_phase1 = snapshot f (received server_around);
                reported = 1 ∷ s.reported;
              }))
    unfolding take_first client_phase1 server_phase1 read_server_stats1 read_client_stats1
    phase1 client_next server_next ended sent counted = client_goes acts (
        client_goes (generates ended) (
          client_goes acts (
            client_goes sends (
              client_goes acts (
                server_goes acts (
                  server_goes acts (
                    server_goes (reads refl refl) (
                      server_goes acts (
                        server_goes sends (
                          client_goes (reads refl refl) (
                            client_goes acts (
                              client_goes sends (
                                server_goes (reads_stats texts _ refl sent) (
                                  server_goes acts (
                                    server_goes acts (
                                      server_goes sends (
                                        client_goes (reads_stats texts _ refl counted)
                                          (client_goes acts stop))))))))))))))))))

    pub phase2 :
        (client_next server_next : Script f)
        → let sent =
            sending server_around s.config (reset_stats server_around.send_start s.generator) in
          HasEnded server_around s.config (reset_stats server_around.send_start s.generator)
          → IsReadBack texts (snapshot f (received client_around))
          → IsReadBack texts (get_stats f sent)
          → Walk client_around server_around phase2_turns
              (both
                (client_phase2 texts client_around client_next)
                (server_phase2 texts server_around server_next)
                c
                s)
              (both client_next
                (wait MessageType.shutdown_ack
                  (λ c. default_timeout)
                  (λ payload c. ok c)
                  server_next)
                (record c {
                  state = State.exchanging_server_stats;
                  receiver = received client_around;
                  client_stats_phase2 = snapshot f (received client_around);
                  server_stats_phase2 = get_stats f sent;
                  reported = 2 ∷ c.reported;
                })
                (record s {
                  state = State.waiting_for_shutdown_ack;
                  generator = sent;
                  client_stats_phase2 = snapshot f (received client_around);
                  server_stats_phase2 = get_stats f sent;
                  reported = 2 ∷ s.reported;
                }))
    unfolding take_first client_phase2 server_phase2 read_server_stats2 read_client_stats2
    phase2 client_next server_next ended counted sent = client_goes sends (
        client_goes acts (
          client_goes acts (
            server_goes (reads refl refl) (
              server_goes acts (
                server_goes acts (
                  server_goes (generates ended) (
                    server_goes acts (
                      server_goes sends (
                        client_goes (reads refl refl) (
                          client_goes acts (
                            client_goes acts (
                              client_goes sends (
                                server_goes (reads_stats texts _ refl counted) (
                                  server_goes acts (
                                    server_goes acts (
                                      server_goes sends (
                                        client_goes (reads_stats texts _ refl sent)
                                          (client_goes acts stop))))))))))))))))))

    pub shutdown :
        Walk client_around server_around shutdown_turns
          (both
            (send MessageType.shutdown_ack (λ c. []) (transition_to State.finished finished))
            (wait MessageType.shutdown_ack
              (λ c. default_timeout)
              (λ payload c. ok c)
              (transition_to State.finished finished))
            c
            s)
          (both finished finished
            (record c { state = State.finished })
            (record s { state = State.finished }))
    unfolding take_first
    shutdown =
        client_goes sends (client_goes acts (server_goes (reads refl refl) (server_goes acts stop)))
