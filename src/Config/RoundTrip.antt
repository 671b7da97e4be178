-- ===== src/Config/RoundTrip.antt =====
-- Writing a configuration as JSON and reading it, as the client's settings go to the server.
use my_iperf.Prelude.{◌≡◌, refl, ◌∙◌, String, some, arith}
use my_iperf.Result.{Result, ok}
use my_iperf.Json.{JsonLib, IsInt}
use my_iperf.Config.{
  TestMode, Config, set_packet_size, set_num_packets, set_send_interval_ms, set_protocol,
  set_target_ip, set_port, set_save_logs, set_handshake_timeout_ms, set_mode_text, set_member,
  from_json, to_json, mode_text,
}
use my_iperf.Config.Accepted.{IsAccepted}

-- The numbers of a configuration are values of an `int`.
pub record IsIntConfig (c : Config) : Type 0 where
  pub packet_size_int : IsInt c.packet_size
  pub num_packets_int : IsInt c.num_packets
  pub send_interval_int : IsInt c.send_interval_ms
  pub port_int : IsInt c.port
  pub timeout_int : IsInt c.handshake_timeout_ms

mode_set : (m : TestMode) (d : Config) → set_mode_text (mode_text m) d ≡ ok (record d { mode = m })
unfolding set_mode_text
mode_set TestMode.client d = refl
mode_set TestMode.server d = refl

module _ (lib : JsonLib) where
  open lib use {
    Json, member, with_member, of_int, of_text, of_bool, get_int, get_text, get_bool,
    member-with_member, get_int-of_int, get_text-of_text, get_bool-of_bool,
  }

  set_member-some :
      {A : Type 0} (key : String) (get : Json → Result A) (set : A → Config → Result Config)
      (j : Json) (c : Config) (v : Json) (x : A)
      → member key j ≡ some v
      → get v ≡ ok x
      → set_member lib key get set j c ≡ set x c
  unfolding set_member
  set_member-some key get set j c v x e g = rw (e, set_member) (rw g)

  module _ (c : Config) (h : IsAccepted c) (r : IsIntConfig c) where
    abbrev j : Json
    j = to_json lib c

    packet_size_read :
        (d : Config)
        → set_member lib "packetSize" get_int set_packet_size j d
          ≡ ok (record d { packet_size = c.packet_size })
    unfolding to_json set_packet_size
    packet_size_read d =
        set_member-some "packetSize" get_int set_packet_size j d _ _ (simp member-with_member)
          (get_int-of_int _ r.packet_size_int)
        ∙ ground (arith, h.packet_size_positive)

    num_packets_read :
        (d : Config)
        → set_member lib "numPackets" get_int set_num_packets j d
          ≡ ok (record d { num_packets = c.num_packets })
    unfolding to_json set_num_packets
    num_packets_read d =
        set_member-some "numPackets" get_int set_num_packets j d _ _ (simp member-with_member)
          (get_int-of_int _ r.num_packets_int)
        ∙ ground (arith, h.num_packets_nonneg)

    send_interval_read :
        (d : Config)
        → set_member lib "sendIntervalMs" get_int set_send_interval_ms j d
          ≡ ok (record d { send_interval_ms = c.send_interval_ms })
    unfolding to_json set_send_interval_ms
    send_interval_read d =
        set_member-some "sendIntervalMs" get_int set_send_interval_ms j d _ _
          (simp member-with_member) (get_int-of_int _ r.send_interval_int)
        ∙ ground (arith, h.send_interval_nonneg)

    protocol_read :
        (d : Config)
        → set_member lib "protocol" get_text set_protocol j d
          ≡ ok (record d { protocol = c.protocol })
    unfolding to_json set_protocol
    protocol_read d =
        set_member-some "protocol" get_text set_protocol j d (of_text c.protocol) c.protocol
          (simp member-with_member) (get_text-of_text _)
        ∙ rw h.protocol_tcp

    target_ip_read :
        (d : Config)
        → set_member lib "targetIP" get_text set_target_ip j d
          ≡ ok (record d { target_ip = c.target_ip })
    unfolding to_json set_target_ip
    target_ip_read d =
        set_member-some "targetIP" get_text set_target_ip j d _ _ (simp member-with_member)
          (get_text-of_text _)
        ∙ refl

    port_read :
        (d : Config) → set_member lib "port" get_int set_port j d ≡ ok (record d { port = c.port })
    unfolding to_json set_port
    port_read d =
        set_member-some "port" get_int set_port j d _ _ (simp member-with_member)
          (get_int-of_int _ r.port_int)
        ∙ ground (arith, h.port_from, h.port_to)

    save_logs_read :
        (d : Config)
        → set_member lib "saveLogs" get_bool set_save_logs j d
          ≡ ok (record d { save_logs = c.save_logs })
    unfolding to_json set_save_logs
    save_logs_read d =
        set_member-some "saveLogs" get_bool set_save_logs j d _ _ (simp member-with_member)
          (get_bool-of_bool _)
        ∙ refl

    timeout_read :
        (d : Config)
        → set_member lib "handshakeTimeoutMs" get_int set_handshake_timeout_ms j d
          ≡ ok (record d { handshake_timeout_ms = c.handshake_timeout_ms })
    unfolding to_json set_handshake_timeout_ms
    timeout_read d =
        set_member-some "handshakeTimeoutMs" get_int set_handshake_timeout_ms j d _ _
          (simp member-with_member) (get_int-of_int _ r.timeout_int)
        ∙ ground (arith, h.timeout_positive)

    mode_read :
        (d : Config)
        → set_member lib "mode" get_text set_mode_text j d ≡ ok (record d { mode = c.mode })
    unfolding to_json set_mode_text
    mode_read d =
        set_member-some "mode" get_text set_mode_text j d (of_text (mode_text c.mode))
          (mode_text c.mode) (simp member-with_member) (get_text-of_text _)
        ∙ mode_set c.mode d

    -- An accepted configuration of `int` values, written as JSON by one side, is read back unchanged by
    -- the other.
    pub from_json-to_json : from_json lib (to_json lib c) ≡ ok c
    unfolding from_json
    from_json-to_json = rw (
      packet_size_read, num_packets_read, send_interval_read, protocol_read, target_ip_read,
      port_read, save_logs_read, timeout_read, mode_read,
    )
