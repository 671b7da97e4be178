-- ===== src/Runner/Framing.antt =====
-- TestRunner/ControlServer.cpp and ControlClient.cpp: messages on a stream, each behind its length in
-- four bytes. The two files have the same four functions.
pub mod Bounds
pub mod Sending
pub mod Delivery
use my_iperf.Prelude.{
  ℕ, zero, suc, ◌+◌, ◌-◌, ◌*◌, ◌/◌, ◌%◌, ◌^◌, ◌≤◌, ◌<◌, ◌≡◌, ◌≢◌, Bytes, Text, Bool, true, false,
  Option, none, some, List, [], ◌∷◌, ◌++◌, length, take, drop, ltb, leb, ◌==◌, ◌||◌, if◌then◌else◌,
}
use my_iperf.Runner.{max_message_size}

-- A connected stream socket. `send` takes a part of the bytes that it is given and returns how many;
-- `recv` returns at most as many bytes as it is asked for, the next ones of the stream, and none at
-- its end. `none` is `SOCKET_ERROR`. `written` and `unread` are the bytes of the two directions.
pub record Socket : Type 1 where
  pub State : Type 0
  pub send : State → Bytes → Option ℕ × State
  pub recv : State → ℕ → Option Bytes × State
  pub written : State → Bytes
  pub unread : State → Bytes
  pub send-some :
      (s t : State) (bytes : Bytes) (n : ℕ)
      → send s bytes ≡ (some n, t)
      → (n ≤ length bytes) × (written t ≡ written s ++ take n bytes)
  pub send-none : (s t : State) (bytes : Bytes) → send s bytes ≡ (none, t) → written t ≡ written s
  pub recv-some :
      (s t : State) (n : ℕ) (bs : Bytes)
      → recv s n ≡ (some bs, t)
      → (length bs ≤ n) × (unread s ≡ bs ++ unread t)
  pub recv-none : (s t : State) (n : ℕ) → recv s n ≡ (none, t) → unread t ≡ unread s

-- `htonl` and `ntohl` of a number of 32 bits, as the bytes of its memory.
unfoldable pub network_bytes : ℕ → Bytes
network_bytes n = n / 2 ^ 24 % 256 ∷ n / 2 ^ 16 % 256 ∷ n / 2 ^ 8 % 256 ∷ n % 256 ∷ []

unfoldable pub network_value : Bytes → ℕ
network_value (a ∷ b ∷ c ∷ d ∷ _) = a * 2 ^ 24 + b * 2 ^ 16 + c * 2 ^ 8 + d
network_value _ = 0

module _ (net : Socket) where
  open net use {State, send, recv}

  abbrev pub Sending : Type 0
  Sending = Bool × State

  abbrev pub Receiving : Type 0
  Receiving = Option Bytes × State

  -- The end of a round of `SendAll`, with the further rounds.
  unfoldable pub sent_some : (State → Bytes → Sending) → Bytes → Option ℕ × State → Sending
  sent_some further bytes (none, t) = (false, t)
  sent_some further bytes (some zero, t) = (false, t)
  sent_some further bytes (some (suc n), t) = further t (drop (suc n) bytes)

  -- `SendAll`; every round that goes on has sent a byte, so the number of bytes is fuel enough.
  unfoldable pub send_all : ℕ → State → Bytes → Sending
  unfolding sent_some
  send_all fuel s [] = (true, s)
  send_all zero s (b ∷ bytes) = (false, s)
  send_all (suc fuel) s (b ∷ bytes) = sent_some (send_all fuel) (b ∷ bytes) (send s (b ∷ bytes))

  -- The end of a round of `RecvAll`, with the further rounds.
  unfoldable pub received_some : (State → Bytes → ℕ → Receiving) → Bytes → ℕ → Receiving → Receiving
  received_some further got left (none, t) = (none, t)
  received_some further got left (some [], t) = (none, t)
  received_some further got left (some (b ∷ bs), t) =
      further t (got ++ b ∷ bs) (left - length (b ∷ bs))

  -- `RecvAll`, with what it stores behind `got`; each round that goes on has received a byte, so `left`
  -- is fuel enough.
  unfoldable pub recv_all : ℕ → State → Bytes → ℕ → Receiving
  unfolding received_some
  recv_all fuel s got zero = (some got, s)
  recv_all zero s got (suc left) = (none, s)
  recv_all (suc fuel) s got (suc left) =
      received_some (recv_all fuel) got (suc left) (recv s (suc left))

  -- `SendMessage` after the length.
  unfoldable pub send_body : Text → Sending → Sending
  unfolding send_all
  send_body message (false, t) = (false, t)
  send_body message (true, t) = send_all (length message) t message

  unfoldable pub send_message : State → Text → Sending
  unfolding send_all send_body network_bytes
  send_message s message =
      if ltb max_message_size (length message)
      then (false, s)
      else send_body message (send_all 4 s (network_bytes (length message)))

  -- What `ReceiveMessage` returns of the bytes of the message.
  unfoldable pub received_text : Receiving → Text × State
  received_text (none, t) = ([], t)
  received_text (some message, t) = (message, t)

  -- `ReceiveMessage` after the four bytes of the length.
  unfoldable pub receive_body : Receiving → Text × State
  unfolding recv_all received_text network_value
  receive_body (none, t) = ([], t)
  receive_body (some header, t) =
      let len = network_value header in
      if len == 0 || ltb max_message_size len
      then ([], t)
      else received_text (recv_all len t [] len)

  unfoldable pub receive_message : State → Text × State
  unfolding recv_all receive_body
  receive_message s = receive_body (recv_all 4 s [] 4)
