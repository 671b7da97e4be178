-- ===== src/CommandLine/Launch.antt =====
-- The command lines that the test runner builds, as IPEFTC reads them: TestRunner/ProcessManager.cpp
-- and MyIperf/app/ipeftc/CLIHandler.cpp.
use my_iperf.Prelude.{
  ◌≡◌, refl, sym, ap, map, ◌∙◌, Text, text, Bool, Option, List, [], ◌++◌, not, is_empty, append-nil,
  if◌then◌else◌, arith,
}
use my_iperf.Prelude.Int.{ℤ, to_string_ℤ}
use my_iperf.Result.{Result, ok, ◌>>=◌}
use my_iperf.Config.{
  TestMode, Config, default_config, set_packet_size, set_num_packets, set_send_interval_ms,
  set_target_ip, set_port, set_mode,
}
use my_iperf.Runner.{TestConfig}
use my_iperf.CommandLine.{
  default_run_options, Parsing, set_config, config_path, is_one_of, value_options, set_checked,
  set_option, parse_options, finish_mode, initial, load_config, parse_args, to_upper,
}
use my_iperf.CommandLine.Arguments.{
  option, option_if, truth_text, is_positive, build_server_args, build_client_args,
}
use my_iperf.CommandLine.Paths.{client_path, server_path}
use my_iperf.CommandLine.Understood.{
  option_read, option_if_read, number_set, truth_set, IsLaunchable,
}

abbrev given : {A : Type 0} → Bool → A → A → A
given b x old = if b then x else old

-- The settings of a client that is launched for `c`.
abbrev pub client_settings : Bool → TestConfig → Parsing
unfolding default_config
client_settings console c = record {
  mode = text "CLIENT";
  config = record default_config {
    target_ip = given (not (is_empty c.target_ip)) c.target_ip default_config.target_ip;
    port = given (is_positive c.port) c.port default_config.port;
    packet_size = given (is_positive c.packet_size) c.packet_size default_config.packet_size;
    num_packets = given (is_positive c.num_packets) c.num_packets default_config.num_packets;
    save_logs = c.save_logs;
    send_interval_ms =
        given (is_positive c.send_interval_ms) c.send_interval_ms default_config.send_interval_ms;
    mode = TestMode.client;
  };
  run_options = record default_run_options {
    run_id = given (not (is_empty c.run_id)) c.run_id default_run_options.run_id;
    result_dir = given (not (is_empty c.result_dir)) c.result_dir default_run_options.result_dir;
  };
  console_output = console;
}

-- The settings of a server that is launched for `c`.
abbrev pub server_settings : Bool → TestConfig → Parsing
unfolding default_config
server_settings console c = record {
  mode = text "SERVER";
  config = record default_config {
    target_ip = if is_empty c.server_bind_ip then text "0.0.0.0" else c.server_bind_ip;
    port = given (is_positive c.port) c.port default_config.port;
    save_logs = c.save_logs;
    mode = TestMode.server;
  };
  run_options = record default_run_options {
    run_id = given (not (is_empty c.run_id)) c.run_id default_run_options.run_id;
    result_dir = given (not (is_empty c.result_dir)) c.result_dir default_run_options.result_dir;
  };
  console_output = console;
}

module _ (stoi : Text → Result ℤ) (console : Bool) (c : TestConfig) (h : IsLaunchable stoi c) where
  abbrev Step : List Text → Parsing → List Text → Parsing → Type 0
  Step args p rest q = parse_options stoi args p ≡ parse_options stoi rest q

  target_step :
      (p : Parsing) (rest : List Text)
      → Step
          (option_if (not (is_empty c.target_ip)) (text "--target") c.target_ip ++ rest)
          p
          rest
          (record p {
            config = record p.config {
              target_ip = given (not (is_empty c.target_ip)) c.target_ip p.config.target_ip;
            };
          })
  unfolding set_option set_checked set_target_ip set_config is_one_of value_options
  target_step p rest =
      option_if_read stoi _ (text "--target") c.target_ip rest
        (λ b. record p {
          config = record p.config { target_ip = given b c.target_ip p.config.target_ip };
        })
        refl (λ e. refl)

  port_step :
      (p : Parsing) (rest : List Text)
      → Step
          (option_if (is_positive c.port) (text "--port") (to_string_ℤ c.port) ++ rest)
          p
          rest
          (record p {
            config = record p.config { port = given (is_positive c.port) c.port p.config.port };
          })
  unfolding set_option set_config set_port is_one_of value_options
  port_step p rest =
      option_if_read stoi _ (text "--port") (to_string_ℤ c.port) rest
        (λ b. record p { config = record p.config { port = given b c.port p.config.port } }) refl
        (λ e. number_set stoi set_port _ c.port p _ h.port_read (ground (arith, h.port_to)))

  size_step :
      (p : Parsing) (rest : List Text)
      → Step
          (option_if (is_positive c.packet_size) (text "--packet-size") (to_string_ℤ c.packet_size)
            ++ rest)
          p
          rest
          (record p {
            config = record p.config {
              packet_size = given (is_positive c.packet_size) c.packet_size p.config.packet_size;
            };
          })
  unfolding set_option set_config set_packet_size is_one_of value_options
  size_step p rest =
      option_if_read stoi _ (text "--packet-size") (to_string_ℤ c.packet_size) rest
        (λ b. record p {
          config = record p.config { packet_size = given b c.packet_size p.config.packet_size };
        })
        refl
        (λ e. number_set stoi set_packet_size _ c.packet_size p _ h.packet_size_read (ground arith))

  count_step :
      (p : Parsing) (rest : List Text)
      → Step
          (option_if (is_positive c.num_packets) (text "--num-packets") (to_string_ℤ c.num_packets)
            ++ rest)
          p
          rest
          (record p {
            config = record p.config {
              num_packets = given (is_positive c.num_packets) c.num_packets p.config.num_packets;
            };
          })
  unfolding set_option set_config set_num_packets is_one_of value_options
  count_step p rest =
      option_if_read stoi _ (text "--num-packets") (to_string_ℤ c.num_packets) rest
        (λ b. record p {
          config = record p.config { num_packets = given b c.num_packets p.config.num_packets };
        })
        refl
        (λ e. number_set stoi set_num_packets _ c.num_packets p _ h.num_packets_read (ground arith))

  interval_step :
      (p : Parsing) (rest : List Text)
      → Step
          (option_if
              (is_positive c.send_interval_ms)
              (text "--interval-ms")
              (to_string_ℤ c.send_interval_ms)
            ++ rest)
          p
          rest
          (record p {
            config = record p.config {
              send_interval_ms =
                  given
                    (is_positive c.send_interval_ms)
                    c.send_interval_ms
                    p.config.send_interval_ms;
            };
          })
  unfolding set_option set_config set_send_interval_ms is_one_of value_options
  interval_step p rest =
      option_if_read stoi _ (text "--interval-ms") (to_string_ℤ c.send_interval_ms) rest
        (λ b. record p {
          config = record p.config {
            send_interval_ms = given b c.send_interval_ms p.config.send_interval_ms;
          };
        })
        refl
        (λ e.
          number_set stoi set_send_interval_ms _ c.send_interval_ms p _ h.interval_read
            (ground arith))

  run_id_step :
      (p : Parsing) (rest : List Text)
      → Step
          (option_if (not (is_empty c.run_id)) (text "--run-id") c.run_id ++ rest)
          p
          rest
          (record p {
            run_options = record p.run_options {
              run_id = given (not (is_empty c.run_id)) c.run_id p.run_options.run_id;
            };
          })
  unfolding set_option is_one_of value_options
  run_id_step p rest =
      option_if_read stoi _ (text "--run-id") c.run_id rest
        (λ b. record p {
          run_options = record p.run_options { run_id = given b c.run_id p.run_options.run_id };
        })
        refl (λ e. refl)

  dir_step :
      (p : Parsing) (rest : List Text)
      → Step
          (option_if (not (is_empty c.result_dir)) (text "--result-dir") c.result_dir ++ rest)
          p
          rest
          (record p {
            run_options = record p.run_options {
              result_dir =
                  given (not (is_empty c.result_dir)) c.result_dir p.run_options.result_dir;
            };
          })
  unfolding set_option is_one_of value_options
  dir_step p rest =
      option_if_read stoi _ (text "--result-dir") c.result_dir rest
        (λ b. record p {
          run_options = record p.run_options {
            result_dir = given b c.result_dir p.run_options.result_dir;
          };
        })
        refl (λ e. refl)

  mode_step :
      (role : Text) (p : Parsing) (rest : List Text)
      → Step (option (text "--mode") role ++ rest) p rest (record p { mode = map to_upper role })
  unfolding set_option is_one_of value_options
  mode_step role p rest = option_read stoi (text "--mode") role rest p _ refl refl

  logs_step :
      (p : Parsing) (rest : List Text)
      → Step
          (option (text "--save-logs") (truth_text c.save_logs) ++ rest)
          p
          rest
          (record p { config = record p.config { save_logs = c.save_logs } })
  unfolding is_one_of value_options set_config
  logs_step p rest =
      option_read stoi (text "--save-logs") _ rest p _ refl (truth_set stoi c.save_logs p)

  abbrev c0 : Parsing
  c0 = initial console default_config

  last_step :
      (p : Parsing)
      → Step
          (option_if (not (is_empty c.result_dir)) (text "--result-dir") c.result_dir)
          p
          []
          (record p {
            run_options = record p.run_options {
              result_dir =
                  given (not (is_empty c.result_dir)) c.result_dir p.run_options.result_dir;
            };
          })
  last_step p = ap (λ l. parse_options stoi l p) (sym (append-nil _)) ∙ dir_step p []

  client_read :
      parse_options stoi (build_client_args c) (initial console default_config)
      ≡ parse_options stoi [] (record (client_settings console c) {
        config = record (client_settings console c).config { mode = default_config.mode };
      })
  unfolding build_client_args initial client_settings to_upper
  client_read =
      mode_step (text "client") (initial console default_config) _
      ∙ (target_step _ _
          ∙ (port_step _ _
              ∙ (size_step _ _
                  ∙ (count_step _ _
                      ∙ (logs_step _ _ ∙ (interval_step _ _ ∙ (run_id_step _ _ ∙ last_step _)))))))

  bind_step :
      (value : Text) (p : Parsing) (rest : List Text)
      → Step
          (option (text "--target") value ++ rest)
          p
          rest
          (record p { config = record p.config { target_ip = value } })
  unfolding set_option set_checked set_target_ip set_config is_one_of value_options
  bind_step value p rest = option_read stoi (text "--target") value rest p _ refl refl

  server_read :
      parse_options stoi (build_server_args c) (initial console default_config)
      ≡ parse_options stoi [] (record (server_settings console c) {
        config = record (server_settings console c).config { mode = default_config.mode };
      })
  unfolding build_server_args initial server_settings to_upper
  server_read =
      mode_step (text "server") (initial console default_config) _
      ∙ (bind_step _ _ _ ∙ (port_step _ _ ∙ (logs_step _ _ ∙ (run_id_step _ _ ∙ last_step _))))

  finished :
      (load : Text → Option Config) (args : List Text) (p : Parsing) (q : Parsing)
      → config_path args ≡ []
      → parse_options stoi args (initial console default_config) ≡ parse_options stoi [] p
      → finish_mode p ≡ ok q
      → parse_args stoi load console args ≡ ok q
  unfolding parse_args load_config parse_options
  finished load args p q e f g =
      ap
        (λ path.
          load_config load path
          >>= (λ d. parse_options stoi args (initial console d) >>= finish_mode))
        e
      ∙ (ap (λ r. r >>= finish_mode) f ∙ g)

  -- A client and a server that the test runner launches for a configuration read, from their command
  -- lines, the settings of that configuration, and the default where it has none: if its port is at
  -- most 65535, `stoi` reads the numbers that were printed, and no text of it is `--config`.
  pub parse_args-build :
      (load : Text → Option Config)
      → (parse_args stoi load console (build_client_args c) ≡ ok (client_settings console c))
        × (parse_args stoi load console (build_server_args c) ≡ ok (server_settings console c))
  unfolding finish_mode client_settings server_settings set_config set_mode
  parse_args-build load = (
    finished load (build_client_args c) _ _ (client_path c h) client_read refl,
    finished load (build_server_args c) _ _ (server_path c h) server_read refl,
  )
