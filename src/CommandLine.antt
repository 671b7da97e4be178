-- ===== src/CommandLine.antt =====
-- MyIperf/app/ipeftc/CLIHandler.cpp and include/myiperf/RunOptions.h: the command line of IPEFTC, and
-- TestRunner/ProcessManager.cpp: the command lines that the test runner builds for it. `std::stoi` and
-- the loading of a configuration file are parameters; `parser.load()` that fails gives `none`.
pub mod Arguments
pub mod Understood
pub mod Paths
pub mod Launch
use my_iperf.Prelude.{
  ℕ, ◌+◌, ◌-◌, ◌≡◌, Text, text, Bool, true, false, Option, none, some, List, [], ◌∷◌, ◌++◌, map,
  leb, ◌&&◌, ◌||◌, not, text_eq, is_empty, ◌==◌, if◌then◌else◌,
}
use my_iperf.Prelude.Int.{ℤ}
use my_iperf.Result.{Result, ok, throw, ◌>>=◌}
use my_iperf.Config.{
  TestMode, Config, default_config, set_packet_size, set_num_packets, set_send_interval_ms,
  set_target_ip, set_port, set_mode, set_save_logs, set_handshake_timeout_ms,
}

pub record RunOptions : Type 0 where
  pub run_id : Text
  pub result_dir : Text
  pub result_json : Text
  pub result_pipe : Text

unfoldable pub default_run_options : RunOptions
default_run_options = record {
  run_id = [];
  result_dir = text "Results";
  result_json = [];
  result_pipe = [];
}

-- `ParsedCommandLine` with the local `mode` of `parseArgs` and what it told `Logger::setConsoleOutput`.
pub record Parsing : Type 0 where
  pub mode : Text
  pub config : Config
  pub run_options : RunOptions
  pub console_output : Bool

unfoldable pub set_config : Config → Parsing → Parsing
set_config c p = record p { config = c }

-- `::toupper` on ASCII.
unfoldable pub to_upper : ℕ → ℕ
to_upper c = if leb 97 c && leb c 122 then c - 32 else c

-- The first pass: the value behind the first `--config` that has one.
unfoldable pub config_path : List Text → Text
config_path [] = []
config_path (arg ∷ []) = []
config_path (arg ∷ value ∷ rest) =
    let later = config_path (value ∷ rest) in if text_eq arg (text "--config") then value else later

-- One of the names of a list.
unfoldable pub is_one_of : Text → List Text → Bool
is_one_of arg [] = false
is_one_of arg (name ∷ names) = text_eq arg name || is_one_of arg names

-- The options that take the next argument as their value.
unfoldable pub value_options : List Text
value_options =
    text "--mode"
    ∷ text "--config"
    ∷ text "--target"
    ∷ text "--port"
    ∷ text "--packet-size"
    ∷ text "--num-packets"
    ∷ text "--interval-ms"
    ∷ text "--save-logs"
    ∷ text "--handshake-timeout-ms"
    ∷ text "--run-id"
    ∷ text "--result-dir"
    ∷ text "--result-json"
    ∷ text "--result-pipe"
    ∷ text "--quiet"
    ∷ text "-q"
    ∷ []

unfoldable pub help_options : List Text
help_options = text "--help" ∷ text "-h" ∷ text "--version" ∷ text "-v" ∷ []

-- `arg.rfind("--", 0) == 0`.
unfoldable pub starts_with_dashes : Text → Bool
starts_with_dashes (a ∷ b ∷ rest) = a == 45 && b == 45
starts_with_dashes _ = false

-- An argument that takes no value, or that has none behind it.
unfoldable pub plain_argument : Text → Parsing → Result Parsing
unfolding is_one_of value_options help_options starts_with_dashes
plain_argument arg p =
    if is_one_of arg help_options
    then ok p
    else if starts_with_dashes arg && not (is_one_of arg value_options)
    then throw (text "Unknown argument: " ++ arg)
    else ok p

-- `if (val == "true") ... else if (val == "false") ... else throw ...`
unfoldable pub choose_truth : Text → Text → Result Parsing → Result Parsing → Result Parsing
choose_truth what value on_true on_false =
    if text_eq value (text "true")
    then on_true
    else if text_eq value (text "false")
    then on_false
    else throw what

module _ (stoi : Text → Result ℤ) where
  unfoldable pub set_number : (ℤ → Config → Result Config) → Text → Parsing → Result Parsing
  unfolding set_config
  set_number set value p = do n ← stoi value; c ← set n p.config; ok (set_config c p)

  unfoldable pub set_checked : Result Config → Parsing → Result Parsing
  unfolding set_config
  set_checked result p = do c ← result; ok (set_config c p)

  -- The branches of the second pass that take a value.
  unfoldable pub set_option : Text → Text → Parsing → Result Parsing
  unfolding set_number set_checked choose_truth to_upper
  set_option arg value p =
      if text_eq arg (text "--mode")
      then ok (record p { mode = map to_upper value })
      else if text_eq arg (text "--config")
      then ok p
      else if text_eq arg (text "--target")
      then set_checked (set_target_ip value p.config) p
      else if text_eq arg (text "--port")
      then set_number set_port value p
      else if text_eq arg (text "--packet-size")
      then set_number set_packet_size value p
      else if text_eq arg (text "--num-packets")
      then set_number set_num_packets value p
      else if text_eq arg (text "--interval-ms")
      then set_number set_send_interval_ms value p
      else if text_eq arg (text "--save-logs")
      then choose_truth (text "Invalid value for --save-logs. Must be 'true' or 'false'.") value
          (set_checked (set_save_logs true p.config) p)
          (set_checked (set_save_logs false p.config) p)
      else if text_eq arg (text "--handshake-timeout-ms")
      then set_number set_handshake_timeout_ms value p
      else if text_eq arg (text "--run-id")
      then ok (record p { run_options = record p.run_options { run_id = value } })
      else if text_eq arg (text "--result-dir")
      then ok (record p { run_options = record p.run_options { result_dir = value } })
      else if text_eq arg (text "--result-json")
      then ok (record p { run_options = record p.run_options { result_json = value } })
      else if text_eq arg (text "--result-pipe")
      then ok (record p { run_options = record p.run_options { result_pipe = value } })
      else choose_truth (text "Invalid value for --quiet. Must be 'true' or 'false'.") value
          (ok (record p { console_output = false })) (ok (record p { console_output = true }))

  -- The second pass.
  unfoldable pub parse_options : List Text → Parsing → Result Parsing
  unfolding is_one_of value_options set_option plain_argument
  parse_options [] p = ok p
  parse_options (arg ∷ []) p = plain_argument arg p
  parse_options (arg ∷ value ∷ rest) p = elim (is_one_of arg value_options) [
    | true ↦ set_option arg value p >>= parse_options rest
    | false ↦ plain_argument arg p >>= parse_options (value ∷ rest)
  ]

-- The check of the mode at the end.
unfoldable pub finish_mode : Parsing → Result Parsing
unfolding set_config set_mode
finish_mode p =
    if text_eq p.mode (text "CLIENT")
    then ok (set_config (set_mode TestMode.client p.config) p)
    else if text_eq p.mode (text "SERVER")
    then ok (set_config (set_mode TestMode.server p.config) p)
    else throw (text "Error: Mode (--mode) must be specified as either 'client' or 'server'.")

-- What the second pass starts from.
unfoldable pub initial : Bool → Config → Parsing
unfolding default_run_options
initial console c = record {
  mode = [];
  config = c;
  run_options = default_run_options;
  console_output = console;
}

unfoldable pub load_config : (Text → Option Config) → Text → Result Config
load_config load path = if is_empty path then ok default_config else elim (load path) [
  | none ↦ throw (text "Error: Failed to load configuration from file: " ++ path)
  | some c ↦ ok c
]

-- `parseArgs` on the arguments behind the name of the program.
unfoldable pub parse_args :
    (Text → Result ℤ) → (Text → Option Config) → Bool → List Text → Result Parsing
unfolding config_path load_config initial parse_options finish_mode
parse_args stoi load console args = do
  c ← load_config load (config_path args)
  p ← parse_options stoi args (initial console c)
  finish_mode p
