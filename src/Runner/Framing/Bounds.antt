-- ===== src/Runner/Framing/Bounds.antt =====
-- TestRunner/ControlServer.cpp, `RecvAll` and `ReceiveMessage`: what a call takes off the stream.
use my_iperf.Prelude.{
  ℕ, zero, suc, ◌+◌, ◌-◌, ◌≤◌, ◌≡◌, ◌≢◌, ◌⊎◌, inl, inr, refl, sym, subst, ap, ap₂, ◌∙◌, Bytes, Text,
  Bool, false, Option, none, some, [], ◌∷◌, ◌++◌, length, ltb, ◌==◌, ◌||◌, if◌then◌else◌,
  append_assoc, append-nil, length-append, Bool-cases, arith,
}
use my_iperf.Runner.{max_message_size}
use my_iperf.Runner.Framing.{
  Socket, network_value, received_some, recv_all, received_text, receive_body, receive_message,
}

pair_cases :
    {S : Type 0} (r : Option Bytes × S)
    → ((t : S) × (r ≡ (none, t))) ⊎ ((t : S) × (bs : Bytes) × (r ≡ (some bs, t)))
pair_cases (none, t) = inl (t, refl)
pair_cases (some bs, t) = inr (t, bs, refl)

module _ (net : Socket) where
  open net use {State, recv, unread, recv-some, recv-none}

  -- What a call took: the next bytes of the stream, as many as were asked for where it succeeds.
  pub record Took (s : State) (got : Bytes) (left : ℕ) (r : Option Bytes × State) : Type 0 where
    pub taken : Bytes
    pub stream : unread s ≡ taken ++ unread r.1
    pub within : length taken ≤ left
    pub whole : (out : Bytes) → r.0 ≡ some out → (out ≡ got ++ taken) × (length taken ≡ left)

  -- One call of `recv`: an error, or the bytes that it returns.
  pub recv-cases :
      (s : State) (n : ℕ)
      → ((t : State) × (recv s n ≡ (none, t)))
        ⊎ ((t : State) × (bs : Bytes) × (recv s n ≡ (some bs, t)))
  recv-cases s n = pair_cases (recv s n)

  further :
      (s t : State) (got : Bytes) (left : ℕ) (b : ℕ) (bs : Bytes) {r : Option Bytes × State}
      → (length (b ∷ bs) ≤ suc left) × (unread s ≡ (b ∷ bs) ++ unread t)
      → Took t (got ++ b ∷ bs) (suc left - length (b ∷ bs)) r
      → Took s got (suc left) r
  further s t got left b bs {r} h k = record {
    taken = (b ∷ bs) ++ k.taken;
    stream =
        h.1 ∙ (ap (λ x. (b ∷ bs) ++ x) k.stream ∙ sym (append_assoc (b ∷ bs) k.taken (unread r.1)));
    within = omega (arith, k.within, h.0, length-append (b ∷ bs) k.taken);
    whole = λ out e. (
      (k.whole out e).0 ∙ append_assoc got (b ∷ bs) k.taken,
      omega (arith, (k.whole out e).1, h.0, length-append (b ∷ bs) k.taken),
    );
  }

  done : (s : State) (got : Bytes) → Took s got 0 (some got, s)
  done s got = record {
    taken = [];
    stream = refl;
    within = omega arith;
    whole = λ out h. (cc (h, append-nil got), refl);
  }

  refused : (s t : State) (got : Bytes) (left : ℕ) → unread t ≡ unread s → Took s got left (none, t)
  refused s t got left e = record {
    taken = [];
    stream = sym e;
    within = omega arith;
    whole = λ out h. cc;
  }

  pub recv_all-Took :
      (fuel : ℕ) (s : State) (got : Bytes) (left : ℕ)
      → Took s got left (recv_all net fuel s got left)
  unfolding recv_all received_some
  recv_all-Took zero s got zero = done s got
  recv_all-Took (suc fuel) s got zero = done s got
  recv_all-Took zero s got (suc left) = refused s s got (suc left) refl
  recv_all-Took (suc fuel) s got (suc left) = elim (recv-cases s (suc left)) [
    | inl (t, e) ↦ subst At (sym e) (refused s t got (suc left) (recv-none s t (suc left) e))
    | inr (t, [], e) ↦
        subst At (sym e) (refused s t got (suc left) (sym (recv-some s t (suc left) [] e).1))
    | inr (t, b ∷ bs, e) ↦ subst At (sym e) (
        further s t got left b bs (recv-some s t (suc left) (b ∷ bs) e)
          (recv_all-Took fuel t (got ++ b ∷ bs) (suc left - length (b ∷ bs))))
  ]
    where
      At : Option Bytes × State → Type 0
      At r = Took s got (suc left) (received_some net (recv_all net fuel) got (suc left) r)

  -- What a call of `ReceiveMessage` took: at most a header and a message of the largest size; and where
  -- it returns a message, exactly a header with the length of that message and the message.
  pub record Received (s : State) (r : Text × State) : Type 0 where
    pub taken : Bytes
    pub stream : unread s ≡ taken ++ unread r.1
    pub within : length taken ≤ 4 + max_message_size
    pub small : length r.0 ≤ max_message_size
    pub framed :
        r.0 ≢ []
        → (header : Bytes) × (taken ≡ header ++ r.0)
          × (length header ≡ 4)
          × (network_value header ≡ length r.0)

  nothing : (s t : State) (header : Option Bytes) → Took s [] 4 (header, t) → Received s ([], t)
  nothing s t header k = record {
    taken = k.taken;
    stream = k.stream;
    within = omega (arith, k.within);
    small = omega arith;
    framed = λ h. absurd (h refl);
  }

  both :
      (s t u : State) {header : Option Bytes} {body : Option Bytes} {n : ℕ}
      (k : Took s [] 4 (header, t)) (m : Took t [] n (body, u))
      → unread s ≡ (k.taken ++ m.taken) ++ unread u
  both s t u k m =
      k.stream ∙ (ap (λ x. k.taken ++ x) m.stream ∙ sym (append_assoc k.taken m.taken (unread u)))

  abbrev refuses : ℕ → Bool
  refuses len = len == 0 || ltb max_message_size len

  accepted : (len : ℕ) → refuses len ≡ false → len ≤ max_message_size
  accepted len e = ground arith

  -- The message behind its header.
  text-Received :
      (s t : State) (header : Bytes) (r : Option Bytes × State)
      → Took s [] 4 (some header, t)
      → network_value header ≤ max_message_size
      → Took t [] (network_value header) r
      → Received s (received_text net r)
  unfolding received_text
  text-Received s t header (none, u) k small m = record {
    taken = k.taken ++ m.taken;
    stream = both s t u k m;
    within = omega (arith, k.within, m.within, length-append k.taken m.taken);
    small = omega arith;
    framed = λ h. absurd (h refl);
  }
  text-Received s t header (some message, u) k small m =
      let (same, four) = k.whole header refl in
      let (same', size) = m.whole message refl in
      record {
        taken = k.taken ++ m.taken;
        stream = both s t u k m;
        within = omega (arith, k.within, m.within, length-append k.taken m.taken);
        small = omega (arith, size, ap length same');
        framed = λ h. (
          header,
          ap₂ ◌++◌ (sym same) (sym same'),
          ap length same ∙ four,
          sym (ap length same' ∙ size),
        );
      }

  body-Received :
      (s : State) (r : Option Bytes × State) → Took s [] 4 r → Received s (receive_body net r)
  unfolding receive_body
  body-Received s (none, t) k = nothing s t none k
  body-Received s (some header, t) k = elim (Bool-cases (refuses (network_value header))) [
    | inl e ↦ subst At (sym e) (nothing s t (some header) k)
    | inr e ↦ subst At (sym e) (
        text-Received s t header _ k (accepted (network_value header) e)
          (recv_all-Took (network_value header) t [] (network_value header)))
  ]
    where
      At : Bool → Type 0
      At b = Received s (
          if b
          then ([], t)
          else received_text net (recv_all net (network_value header) t [] (network_value header)))

  -- Whatever the socket does, a call of `ReceiveMessage` returns at most 65536 bytes and takes at most
  -- four more off the stream; and a message that is not empty is exactly the bytes that follow a
  -- header of four bytes with its length, all of them taken off the stream and no byte more.
  pub receive_message-Received : (s : State) → Received s (receive_message net s)
  unfolding receive_message
  receive_message-Received s = body-Received s _ (recv_all-Took 4 s [] 4)
