-- ===== src/Config/Accepted.antt =====
-- Which settings the setters and `fromJson` let through.
use my_iperf.Prelude.{◌≡◌, String, arith, text_eq→≡, Option-cases, inl, inr}
use my_iperf.Prelude.Int.{pos, ◌≤ℤ◌, ◌<ℤ◌}
use my_iperf.Result.{Result, ok, Yields, Yields-bind}
use my_iperf.Json.{JsonLib}
use my_iperf.Config.{
  Config, tcp, default_config, set_packet_size, set_num_packets, set_send_interval_ms, set_protocol,
  set_target_ip, set_port, set_save_logs, set_handshake_timeout_ms, set_mode_text, set_member,
  from_json,
}

pub record IsAccepted (c : Config) : Type 0 where
  pub packet_size_positive : pos 0 <ℤ c.packet_size
  pub num_packets_nonneg : pos 0 ≤ℤ c.num_packets
  pub send_interval_nonneg : pos 0 ≤ℤ c.send_interval_ms
  pub protocol_tcp : c.protocol ≡ tcp
  pub port_from : pos 1 ≤ℤ c.port
  pub port_to : c.port ≤ℤ pos 65535
  pub timeout_positive : pos 0 <ℤ c.handshake_timeout_ms

-- Whatever configuration a setter makes of an accepted one is accepted.
abbrev pub Keeps : {A : Type 0} → (A → Config → Result Config) → Type 0
Keeps {A} set = (x : A) (c : Config) → IsAccepted c → Yields IsAccepted (set x c)

default_config-IsAccepted : IsAccepted default_config
unfolding default_config
default_config-IsAccepted = ground arith

set_packet_size-Keeps : Keeps set_packet_size
unfolding set_packet_size
set_packet_size-Keeps x c h c' e = ground arith

set_num_packets-Keeps : Keeps set_num_packets
unfolding set_num_packets
set_num_packets-Keeps x c h c' e = ground arith

set_send_interval_ms-Keeps : Keeps set_send_interval_ms
unfolding set_send_interval_ms
set_send_interval_ms-Keeps x c h c' e = ground arith

set_protocol-Keeps : Keeps set_protocol
unfolding set_protocol
set_protocol-Keeps x c h c' e = ground (arith, text_eq→≡ x tcp)

set_target_ip-Keeps : Keeps set_target_ip
unfolding set_target_ip
set_target_ip-Keeps x c h c' e = ground arith

set_port-Keeps : Keeps set_port
unfolding set_port
set_port-Keeps x c h c' e = ground arith

set_save_logs-Keeps : Keeps set_save_logs
unfolding set_save_logs
set_save_logs-Keeps x c h c' e = ground arith

set_handshake_timeout_ms-Keeps : Keeps set_handshake_timeout_ms
unfolding set_handshake_timeout_ms
set_handshake_timeout_ms-Keeps x c h c' e = ground arith

set_mode_text-Keeps : Keeps set_mode_text
unfolding set_mode_text
set_mode_text-Keeps x c h c' e = ground arith

module _ (lib : JsonLib) where
  open lib use {Json, member, get_int, get_text, get_bool}

  set_member-Keeps :
      {A : Type 0} (key : String) (get : Json → Result A) (set : A → Config → Result Config)
      → Keeps set
      → (j : Json) (c : Config) → IsAccepted c
      → Yields IsAccepted (set_member lib key get set j c)
  unfolding set_member
  set_member-Keeps key get set keep j c h = elim (Option-cases (member key j)) [
    | inl e ↦ rw (e, set_member) (λ c' e'. ground arith)
    | inr (v, e) ↦
        rw (e, set_member)
          (Yields-bind (λ x. Unit {0}) IsAccepted (get v) (λ x. set x c) (λ x _. tt)
            (λ x _. keep x c h))
  ]

  -- `fromJson` either throws or returns an accepted configuration, whatever the JSON value holds.
  pub from_json-IsAccepted : (j : Json) (c : Config) → from_json lib j ≡ ok c → IsAccepted c
  unfolding from_json
  from_json-IsAccepted j =
      let bind = Yields-bind IsAccepted IsAccepted in
      bind _ _
        (set_member-Keeps "packetSize" get_int _ set_packet_size-Keeps j _
          default_config-IsAccepted)
        (λ c h.
          bind _ _ (set_member-Keeps "numPackets" get_int _ set_num_packets-Keeps j c h) (λ c h.
            bind _ _ (set_member-Keeps "sendIntervalMs" get_int _ set_send_interval_ms-Keeps j c h)
              (λ c h.
                bind _ _ (set_member-Keeps "protocol" get_text _ set_protocol-Keeps j c h) (λ c h.
                  bind _ _ (set_member-Keeps "targetIP" get_text _ set_target_ip-Keeps j c h)
                    (λ c h.
                      bind _ _ (set_member-Keeps "port" get_int _ set_port-Keeps j c h) (λ c h.
                        bind _ _ (set_member-Keeps "saveLogs" get_bool _ set_save_logs-Keeps j c h)
                          (λ c h.
                            bind _ _
                              (set_member-Keeps "handshakeTimeoutMs" get_int _
                                set_handshake_timeout_ms-Keeps j c h)
                              (λ c h.
                                set_member-Keeps "mode" get_text _ set_mode_text-Keeps j c h))))))))
