-- ===== src/Runner/Framing/Sending.antt =====
-- TestRunner/ControlServer.cpp, `SendAll` and `SendMessage`: what a call writes to the stream.
use my_iperf.Prelude.{
  ℕ, zero, suc, ◌≤◌, ◌≡◌, inl, inr, refl, sym, subst, ap, ap₂, ◌∙◌, Bytes, Text, Bool, true, false,
  Option, none, some, [], ◌∷◌, ◌++◌, length, take, drop, ltb, if◌then◌else◌, append_assoc,
  append-nil, length-drop, Bool-cases, arith,
}
use my_iperf.Runner.{max_message_size}
use my_iperf.Runner.Framing.{Socket, network_bytes, sent_some, send_all, send_body, send_message}

take-drop : (xs : Bytes) (n : ℕ) → n ≤ length xs → take n xs ++ drop n xs ≡ xs
take-drop xs zero h = refl
take-drop [] (suc n) h = refl
take-drop (x ∷ xs) (suc n) h = ap (◌∷◌ x) (take-drop xs n (omega arith))

-- A message as it stands on the stream.
abbrev pub frame : Text → Bytes
frame message = network_bytes (length message) ++ message

module _ (net : Socket) where
  open net use {State, send, recv, written, unread, send-some, send-none}

  -- `send` takes at least one byte of those that it is given.
  abbrev pub Accepts : Type 0
  Accepts =
      (s : State) (b : ℕ) (bytes : Bytes)
      → (n : ℕ) × (t : State) × (send s (b ∷ bytes) ≡ (some (suc n), t))

  -- What a call handed over: the first bytes of those that it was given, all of them where it succeeds.
  pub record Handed (s : State) (bytes : Bytes) (r : Bool × State) : Type 0 where
    pub handed : Bytes
    pub held : Bytes
    pub prefix : bytes ≡ handed ++ held
    pub log : written r.1 ≡ written s ++ handed
    pub whole : r.0 ≡ true → handed ≡ bytes

  stopped : (s t : State) (bytes : Bytes) → written t ≡ written s → Handed s bytes (false, t)
  stopped s t bytes e = record {
    handed = [];
    held = bytes;
    prefix = refl;
    log = e ∙ sym (append-nil (written s));
    whole = λ h. cc;
  }

  finished : (s : State) → Handed s [] (true, s)
  finished s = record {
    handed = [];
    held = [];
    prefix = refl;
    log = sym (append-nil (written s));
    whole = λ h. refl;
  }

  further :
      (s t : State) (bytes : Bytes) (n : ℕ) (r : Bool × State)
      → (n ≤ length bytes) × (written t ≡ written s ++ take n bytes)
      → Handed t (drop n bytes) r
      → Handed s bytes r
  further s t bytes n r (h, e) k = record {
    handed = take n bytes ++ k.handed;
    held = k.held;
    prefix =
        sym (take-drop bytes n h)
        ∙ (ap (λ x. take n bytes ++ x) k.prefix
            ∙ sym (append_assoc (take n bytes) k.handed k.held));
    log = k.log ∙ (ap (λ x. x ++ k.handed) e ∙ append_assoc (written s) (take n bytes) k.handed);
    whole = λ w. ap (λ x. take n bytes ++ x) (k.whole w) ∙ take-drop bytes n h;
  }

  sent-Handed :
      (go : State → Bytes → Bool × State)
      → ((t : State) (rest : Bytes) → Handed t rest (go t rest))
      → (s : State) (bytes : Bytes) (o : Option ℕ × State) → send s bytes ≡ o
      → Handed s bytes (sent_some net go bytes o)
  unfolding sent_some
  sent-Handed go ih s bytes (none, t) e = stopped s t bytes (send-none s t bytes e)
  sent-Handed go ih s bytes (some zero, t) e =
      stopped s t bytes ((send-some s t bytes 0 e).1 ∙ append-nil (written s))
  sent-Handed go ih s bytes (some (suc n), t) e =
      further s t bytes (suc n) _ (send-some s t bytes (suc n) e) (ih t (drop (suc n) bytes))

  send_all-Handed :
      (fuel : ℕ) (s : State) (bytes : Bytes) → Handed s bytes (send_all net fuel s bytes)
  unfolding send_all
  send_all-Handed zero s [] = finished s
  send_all-Handed (suc fuel) s [] = finished s
  send_all-Handed zero s (b ∷ bytes) = stopped s s (b ∷ bytes) refl
  send_all-Handed (suc fuel) s (b ∷ bytes) =
      sent-Handed (send_all net fuel) (send_all-Handed fuel) s (b ∷ bytes) _ refl

  body-Handed :
      (s : State) (message : Text) (r : Bool × State)
      → Handed s (network_bytes (length message)) r
      → Handed s (frame message) (send_body net message r)
  unfolding send_body
  body-Handed s message (false, t) k = record {
    handed = k.handed;
    held = k.held ++ message;
    prefix = ap (λ x. x ++ message) k.prefix ∙ append_assoc k.handed k.held message;
    log = k.log;
    whole = λ h. cc;
  }
  body-Handed s message (true, t) k =
      let m = send_all-Handed (length message) t message in
      let header = k.whole refl in
      record {
        handed = k.handed ++ m.handed;
        held = m.held;
        prefix =
            ap (λ x. x ++ message) (sym header)
            ∙ (ap (λ x. k.handed ++ x) m.prefix ∙ sym (append_assoc k.handed m.handed m.held));
        log = m.log ∙ (ap (λ x. x ++ m.handed) k.log ∙ append_assoc (written s) k.handed m.handed);
        whole = λ h. ap₂ ◌++◌ header (m.whole h);
      }

  -- Whatever the socket does, a call of `SendMessage` adds to the stream the first bytes of the message
  -- behind its length, and all of them where it succeeds.
  pub send_message-Handed :
      (s : State) (message : Text) → Handed s (frame message) (send_message net s message)
  unfolding send_message
  send_message-Handed s message = elim (Bool-cases (ltb max_message_size (length message))) [
    | inl e ↦ subst At (sym e) (stopped s s (frame message) refl)
    | inr e ↦
        subst At (sym e)
          (body-Handed s message _ (send_all-Handed 4 s (network_bytes (length message))))
  ]
    where
      At : Bool → Type 0
      At b = Handed s (frame message) (
          if b
          then (false, s)
          else send_body net message (send_all net 4 s (network_bytes (length message))))

  pub send_all-Accepts :
      Accepts
      → (fuel : ℕ) (s : State) (bytes : Bytes) → length bytes ≤ fuel
      → (send_all net fuel s bytes).0 ≡ true
  unfolding send_all sent_some
  send_all-Accepts live zero s [] h = refl
  send_all-Accepts live (suc fuel) s [] h = refl
  send_all-Accepts live zero s (b ∷ bytes) h = absurd (omega arith)
  send_all-Accepts live (suc fuel) s (b ∷ bytes) h =
      let (n, t, e) = live s b bytes in
      ap (λ o. (sent_some net (send_all net fuel) (b ∷ bytes) o).0) e
      ∙ send_all-Accepts live fuel t (drop n bytes) (omega (arith, length-drop n bytes))

  body_sent :
      Accepts
      → (message : Text) (r : Bool × State) → r.0 ≡ true
      → (send_body net message r).0 ≡ true
  unfolding send_body
  body_sent live message (false, t) h = cc
  body_sent live message (true, t) h =
      send_all-Accepts live (length message) t message (omega arith)

  -- The call succeeds on a socket that takes bytes, for a message that is not too large.
  pub send_message-Accepts :
      Accepts
      → (s : State) (message : Text) → length message ≤ max_message_size
      → (send_message net s message).0 ≡ true
  unfolding send_message network_bytes
  send_message-Accepts live s message h =
      ap
        (λ (b : Bool).
          (if b
            then (false, s)
            else send_body net message (send_all net 4 s (network_bytes (length message)))).0)
        small
      ∙ body_sent live message _
          (send_all-Accepts live 4 s (network_bytes (length message)) (omega arith))
    where
      small : ltb max_message_size (length message) ≡ false
      small = ground arith
