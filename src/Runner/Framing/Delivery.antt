-- ===== src/Runner/Framing/Delivery.antt =====
-- TestRunner/ControlServer.cpp, `SendMessage` and `ReceiveMessage`: what a sender writes and what a
-- receiver makes of it.
use my_iperf.Prelude.{
  ℕ, zero, suc, ◌-◌, ◌^◌, ◌≤◌, ◌<◌, ◌≡◌, ◌≢◌, refl, sym, ap, ap₂, ◌∙◌, Bytes, Text, Bool, true,
  false, some, [], ◌∷◌, ◌++◌, length, ltb, ◌==◌, ◌||◌, if◌then◌else◌, append_assoc, length-append,
  arith,
}
use my_iperf.Runner.{max_message_size}
use my_iperf.Runner.Framing.{
  Socket, network_bytes, network_value, send_message, recv_all, received_some, receive_body,
  received_text, receive_message,
}
use my_iperf.Runner.Framing.Sending.{frame, Accepts, send_message-Handed, send_message-Accepts}
use my_iperf.Runner.Framing.Bounds.{recv_all-Took}

network_value-bytes : (n : ℕ) → n < 2 ^ 32 → network_value (network_bytes n) ≡ n
unfolding network_value network_bytes
network_value-bytes n h = omega arith

append_split :
    (xs us : Bytes) {ys vs : Bytes}
    → xs ++ ys ≡ us ++ vs
    → length xs ≡ length us
    → (xs ≡ us) × (ys ≡ vs)
append_split [] [] e l = (refl, e)
append_split [] (u ∷ us) e l = absurd (omega arith)
append_split (x ∷ xs) [] e l = absurd (omega arith)
append_split (x ∷ xs) (u ∷ us) {ys} {vs} e l =
    let (a, b) = append_split xs us {ys = ys} {vs = vs} (cc e) (omega arith) in
    (ap₂ ◌∷◌ (cc e) a, b)

accepted :
    (message : Text)
    → message ≢ []
    → length message ≤ max_message_size
    → (length message == 0 || ltb max_message_size (length message)) ≡ false
accepted [] full small = absurd (full refl)
accepted (c ∷ cs) full small = ground arith

append_cancel : (xs : Bytes) {ys zs : Bytes} → xs ++ ys ≡ xs ++ zs → ys ≡ zs
append_cancel xs e = (append_split xs xs e refl).1

module _ (net : Socket) where
  open net use {State, recv, written, unread}

  -- `recv` returns at least one byte while there are bytes to come.
  abbrev pub Arrives : Type 0
  Arrives =
      (s : State) (n : ℕ)
      → unread s ≢ []
      → 0 < n
      → (b : ℕ) × (bs : Bytes) × (t : State) × (recv s n ≡ (some (b ∷ bs), t))

  recv_all-Arrives :
      Arrives
      → (fuel : ℕ) (s : State) (got : Bytes) (left : ℕ) → left ≤ fuel
      → left ≤ length (unread s)
      → (out : Bytes) × ((recv_all net fuel s got left).0 ≡ some out)
  unfolding recv_all received_some
  recv_all-Arrives live zero s got zero h k = (got, refl)
  recv_all-Arrives live (suc fuel) s got zero h k = (got, refl)
  recv_all-Arrives live zero s got (suc left) h k = absurd (omega arith)
  recv_all-Arrives live (suc fuel) s got (suc left) h k =
      let (b, bs, t, e) =
        live s (suc left) (λ none_left. omega (arith, ap length none_left)) (omega arith) in
      let took = net.recv-some s t (suc left) (b ∷ bs) e in
      let (out, f) =
        recv_all-Arrives live fuel t (got ++ b ∷ bs) (suc left - length (b ∷ bs)) (omega arith)
          (omega (arith, took, ap length took.1, length-append (b ∷ bs) (unread t))) in
      (out, ap (λ o. (received_some net (recv_all net fuel) got (suc left) o).0) e ∙ f)

  -- A receiver of many bytes gets exactly those.
  recv_all-exact :
      Arrives
      → (s : State) (wanted rest : Bytes) → unread s ≡ wanted ++ rest
      → (t : State) × (recv_all net (length wanted) s [] (length wanted) ≡ (some wanted, t))
        × (unread t ≡ rest)
  recv_all-exact live s wanted rest e =
      let n = length wanted in
      let r = recv_all net n s [] n in
      let k = recv_all-Took net n s [] n in
      let (out, f) =
        recv_all-Arrives live n s [] n (omega arith)
          (omega (arith, ap length e, length-append wanted rest)) in
      let (same, size) = k.whole out f in
      let (front, back) =
        append_split k.taken wanted {ys = unread r.1} {vs = rest} (sym k.stream ∙ e) size in
      (r.1, ap (λ x. (x, r.1)) (f ∙ ap some (same ∙ front)), back)

  chosen : State → ℕ → Text × State
  chosen t len =
      if len == 0 || ltb max_message_size len
      then ([], t)
      else received_text net (recv_all net len t [] len)

  -- The two halves of `ReceiveMessage`, from a message in front of the stream.
  receive_message-exact :
      Arrives
      → (s : State) (message rest : Text) → message ≢ []
      → length message ≤ max_message_size
      → unread s ≡ frame message ++ rest
      → ((receive_message net s).0 ≡ message) × (unread (receive_message net s).1 ≡ rest)
  unfolding receive_message receive_body received_text chosen network_bytes
  receive_message-exact live s message rest full small e =
      let header = network_bytes (length message) in
      let (t, first, more) =
        recv_all-exact live s header (message ++ rest) (e ∙ append_assoc header message rest) in
      let (u, second, last) = recv_all-exact live t message rest more in
      let v : network_value header ≡ length message =
        network_value-bytes (length message) (omega arith) in
      let whole : receive_message net s ≡ (message, u) =
        ap (receive_body net) first
        ∙ (ap (chosen t) v
            ∙ (ap
                  (λ (b : Bool).
                    if b
                    then ([], t)
                    else received_text net (recv_all net (length message) t [] (length message)))
                  (accepted message full small)
                ∙ ap (received_text net) second)) in
      (ap (λ r. r.0) whole, ap (λ r. unread r.1) whole ∙ last)

module _ (sender receiver : Socket) where
  -- A message that is not empty and not too large, sent on a socket that takes bytes, is returned by
  -- the receiver at the other end, whatever the pieces in which the bytes go and arrive: the call
  -- of `SendMessage` succeeds, and `ReceiveMessage` returns the message and leaves what follows it.
  pub receive_message-send :
      Accepts sender
      → Arrives receiver
      → (s : sender.State) (t : receiver.State) (message sent rest : Text) → message ≢ []
      → length message ≤ max_message_size
      → sender.written (send_message sender s message).1 ≡ sender.written s ++ sent
      → receiver.unread t ≡ sent ++ rest
      → ((send_message sender s message).0 ≡ true)
        × ((receive_message receiver t).0 ≡ message)
        × (receiver.unread (receive_message receiver t).1 ≡ rest)
  receive_message-send live live' s t message sent rest full small e e' =
      let k = send_message-Handed sender s message in
      let yes = send_message-Accepts sender live s message small in
      let whole : sent ≡ frame message =
        append_cancel (sender.written s) (sym e ∙ k.log) ∙ k.whole yes in
      let (got, left) =
        receive_message-exact receiver live' t message rest full small
          (e' ∙ ap (λ x. x ++ rest) whole) in
      (yes, got, left)
