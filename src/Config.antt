-- ===== src/Config.antt =====
-- MyIperf/include/myiperf/Config.h and src/myiperf/Config.cpp: the settings of a run, their checks and
-- their JSON form.
pub mod Accepted
pub mod RoundTrip
use my_iperf.Prelude.{
  ℕ, String, Text, text, Bool, true, false, Option, none, some, List, [], ◌∷◌, ◌++◌, not, ◌||◌,
  text_eq, if◌then◌else◌,
}
use my_iperf.Prelude.Int.{ℤ, pos, leb_ℤ, ltb_ℤ}
use my_iperf.Result.{Result, ok, throw, ◌>>=◌, ◌>>◌, throw_if}
use my_iperf.Json.{JsonLib}

pub data TestMode : Type 0 where
  client server : TestMode

pub record Config : Type 0 where
  pub packet_size : ℤ
  pub num_packets : ℤ
  pub send_interval_ms : ℤ
  pub protocol : Text
  pub target_ip : Text
  pub port : ℤ
  pub mode : TestMode
  pub save_logs : Bool
  pub handshake_timeout_ms : ℤ

abbrev pub tcp : Text
tcp = text "TCP"

-- The default constructor.
unfoldable pub default_config : Config
default_config = record {
  packet_size = pos 1024;
  num_packets = pos 0;
  send_interval_ms = pos 0;
  protocol = tcp;
  target_ip = text "127.0.0.1";
  port = pos 5201;
  mode = TestMode.client;
  save_logs = false;
  handshake_timeout_ms = pos 5000;
}

unfoldable pub set_packet_size : ℤ → Config → Result Config
set_packet_size size c = do
  throw_if (leb_ℤ size (pos 0)) (text "Error: Packet size must be a positive integer.")
  ok (record c { packet_size = size })

unfoldable pub set_num_packets : ℤ → Config → Result Config
set_num_packets count c = do
  throw_if (ltb_ℤ count (pos 0)) (text "Error: numPackets must be >= 0.")
  ok (record c { num_packets = count })

unfoldable pub set_send_interval_ms : ℤ → Config → Result Config
set_send_interval_ms interval_ms c = do
  throw_if (ltb_ℤ interval_ms (pos 0)) (text "Error: sendIntervalMs must be >= 0.")
  ok (record c { send_interval_ms = interval_ms })

unfoldable pub set_protocol : Text → Config → Result Config
set_protocol proto c = do
  throw_if (not (text_eq proto tcp))
      (text "Error: Unsupported protocol specified. Only 'TCP' is supported.")
  ok (record c { protocol = proto })

unfoldable pub set_target_ip : Text → Config → Result Config
set_target_ip ip c = ok (record c { target_ip = ip })

unfoldable pub set_port : ℤ → Config → Result Config
set_port p c = do
  throw_if (leb_ℤ p (pos 0) || ltb_ℤ (pos 65535) p)
      (text "Error: Port number must be between 1 and 65535.")
  ok (record c { port = p })

unfoldable pub set_mode : TestMode → Config → Config
set_mode m c = record c { mode = m }

unfoldable pub set_save_logs : Bool → Config → Result Config
set_save_logs save c = ok (record c { save_logs = save })

unfoldable pub set_handshake_timeout_ms : ℤ → Config → Result Config
set_handshake_timeout_ms timeout_ms c = do
  throw_if (leb_ℤ timeout_ms (pos 0)) (text "Error: handshakeTimeoutMs must be > 0.")
  ok (record c { handshake_timeout_ms = timeout_ms })

-- The mode as `toJson` writes it.
abbrev pub mode_text : TestMode → Text
mode_text TestMode.client = text "CLIENT"
mode_text TestMode.server = text "SERVER"

unfoldable pub set_mode_text : Text → Config → Result Config
unfolding set_mode
set_mode_text mode_str c =
    if text_eq mode_str (text "CLIENT")
    then ok (set_mode TestMode.client c)
    else if text_eq mode_str (text "SERVER")
    then ok (set_mode TestMode.server c)
    else throw (text "Error: Invalid mode in configuration file: " ++ mode_str)

module _ (lib : JsonLib) where
  open lib use {
    Json, object, member, with_member, of_int, of_text, of_bool, get_int, get_text, get_bool,
  }

  unfoldable pub to_json : Config → Json
  to_json c = with_member "handshakeTimeoutMs" (of_int c.handshake_timeout_ms) (
      with_member "saveLogs" (of_bool c.save_logs) (
        with_member "mode" (of_text (mode_text c.mode)) (
          with_member "port" (of_int c.port) (
            with_member "targetIP" (of_text c.target_ip) (
              with_member "protocol" (of_text c.protocol) (
                with_member "sendIntervalMs" (of_int c.send_interval_ms) (
                  with_member "numPackets" (of_int c.num_packets)
                    (with_member "packetSize" (of_int c.packet_size) object))))))))

  -- `if (json.contains(key)) config.set(json[key].get<A>());`
  unfoldable pub set_member :
      {A : Type 0}
      → String
      → (Json → Result A)
      → (A → Config → Result Config)
      → Json
      → Config
      → Result Config
  set_member key get set j c = elim (member key j) [
    | none ↦ ok c
    | some v ↦ (do x ← get v; set x c)
  ]

  unfoldable pub from_json : Json → Result Config
  from_json j = do
    c ← set_member "packetSize" get_int set_packet_size j default_config
    c ← set_member "numPackets" get_int set_num_packets j c
    c ← set_member "sendIntervalMs" get_int set_send_interval_ms j c
    c ← set_member "protocol" get_text set_protocol j c
    c ← set_member "targetIP" get_text set_target_ip j c
    c ← set_member "port" get_int set_port j c
    c ← set_member "saveLogs" get_bool set_save_logs j c
    c ← set_member "handshakeTimeoutMs" get_int set_handshake_timeout_ms j c
    set_member "mode" get_text set_mode_text j c
