-- ===== src/Runner/Kinds.antt =====
-- TestRunner/Protocol.h: the names of the message types.
use my_iperf.Prelude.{◌≡◌, refl, ◌↔◌, Text, text, text_eq→≡, ap, ◌∙◌, arith}
use my_iperf.Result.{ok}
use my_iperf.Runner.{MessageType, message_type_to_string, string_to_message_type}

pub string_to_message_type-to_string :
    (t : MessageType) → string_to_message_type (message_type_to_string t) ≡ ok t
unfolding string_to_message_type message_type_to_string
string_to_message_type-to_string MessageType.config_request = refl
string_to_message_type-to_string MessageType.server_ready = refl
string_to_message_type-to_string MessageType.test_complete = refl
string_to_message_type-to_string MessageType.results_request = refl
string_to_message_type-to_string MessageType.results_response = refl
string_to_message_type-to_string MessageType.error_message = refl
string_to_message_type-to_string MessageType.heartbeat = refl
string_to_message_type-to_string MessageType.server_shutdown = refl

named :
    (str : Text) (t : MessageType)
    → string_to_message_type str ≡ ok t
    → str ≡ message_type_to_string t
unfolding string_to_message_type message_type_to_string
named str t h = ground (
  arith,
  text_eq→≡ str (text "CONFIG_REQUEST"),
  text_eq→≡ str (text "SERVER_READY"),
  text_eq→≡ str (text "TEST_COMPLETE"),
  text_eq→≡ str (text "RESULTS_REQUEST"),
  text_eq→≡ str (text "RESULTS_RESPONSE"),
  text_eq→≡ str (text "ERROR_MESSAGE"),
  text_eq→≡ str (text "HEARTBEAT"),
  text_eq→≡ str (text "SERVER_SHUTDOWN"),
)

-- A text is read as a message type exactly where it is the name of that type.
pub string_to_message_type_iff :
    (str : Text) (t : MessageType)
    → (string_to_message_type str ≡ ok t) ↔ (str ≡ message_type_to_string t)
string_to_message_type_iff str t =
    (named str t, λ h. ap string_to_message_type h ∙ string_to_message_type-to_string t)
