-- ===== src/Dispatcher/Routes.antt =====
-- Which packets reach the counters and which the bus.
use my_iperf.Prelude.{
  ℕ, ◌≡◌, refl, ap, ◌∙◌, List, [], ◌∷◌, Bool, true, false, Option, none, some, All, Bool-cases,
  ==_iff, inl, inr, ◌==◌, if◌then◌else◌,
}
use my_iperf.Protocol.{MessageType, value}
use my_iperf.Parser.{ParsedPacket}
use my_iperf.Bus.{ControlMessageBus, Event, delivers, deliver, run, step}
use my_iperf.ReceiveStats.{on_data_packet, on_data_packets}
use my_iperf.Dispatcher.{Sinks, Resume, dispatch, dispatch_one, run_continuation}

abbrev pub IsData : ParsedPacket → Type 0
IsData k = k.header.message_type ≡ value MessageType.data_packet

abbrev pub is_data : ParsedPacket → Bool
is_data k = k.header.message_type == value MessageType.data_packet

unfoldable pub data_only : List (ℕ × ParsedPacket) → List (ℕ × ParsedPacket)
data_only [] = []
data_only ((now, k) ∷ ks) = if is_data k then (now, k) ∷ data_only ks else data_only ks

unfoldable pub control_only : List (ℕ × ParsedPacket) → List Event
control_only [] = []
control_only ((now, k) ∷ ks) =
    if is_data k then control_only ks else delivers k.header k.payload ∷ control_only ks

dispatch_one-data :
    (resume : Resume) (now : ℕ) (k : ParsedPacket) (s : Sinks)
    → is_data k ≡ true
    → dispatch_one resume now k s ≡ record s { stats = on_data_packet now s.stats k }
unfolding dispatch_one
dispatch_one-data resume now k s e = rw e

step-delivers :
    (b : ControlMessageBus) (k : ParsedPacket)
    → (deliver b k.header k.payload).1 ≡ step b (delivers k.header k.payload)
unfolding step
step-delivers b k = refl

dispatch_one-control :
    (now : ℕ) (k : ParsedPacket) (s : Sinks)
    → is_data k ≡ false
    → dispatch_one (λ a t. t) now k s
      ≡ record s { messages = (deliver s.messages k.header k.payload).1 }
unfolding dispatch_one
dispatch_one-control now k s e = rw e (idle (deliver s.messages k.header k.payload).0)
  where
    idle : (c : Option ℕ) {t : Sinks} → run_continuation (λ a u. u) c t ≡ t
    idle none = refl
    idle (some a) = refl

abbrev pub routed : List (ℕ × ParsedPacket) → Sinks → Sinks
routed ks t = record {
  messages = run t.messages (control_only ks);
  stats = on_data_packets t.stats (data_only ks);
}

-- Where the resumed coroutines leave the bus and the counters alone, dispatching any packets counts
-- the data packets, in their order, and delivers the others to the bus, in their order.
pub dispatch_routes :
    (s : Sinks) (ks : List (ℕ × ParsedPacket)) → dispatch (λ a t. t) s ks ≡ routed ks s
unfolding dispatch data_only control_only run on_data_packets
dispatch_routes s [] = refl
dispatch_routes s ((now, k) ∷ ks) = elim (Bool-cases (is_data k)) [
  | inl e ↦
      dispatch_routes (dispatch_one (λ a t. t) now k s) ks
      ∙ ap (routed ks) (dispatch_one-data (λ a t. t) now k s e)
      ∙ rw e
  | inr e ↦
      dispatch_routes (dispatch_one (λ a t. t) now k s) ks
      ∙ ap (routed ks) (dispatch_one-control now k s e)
      ∙ ap (λ (b : ControlMessageBus). routed ks (record s { messages = b }))
          (step-delivers s.messages k)
      ∙ rw e
]

-- Data packets alone never touch the bus nor resume anybody.
pub dispatch-data :
    (resume : Resume) (s : Sinks) (ks : List (ℕ × ParsedPacket))
    → All (λ k. IsData k.1) ks
    → dispatch resume s ks ≡ record s { stats = on_data_packets s.stats ks }
unfolding dispatch on_data_packets
dispatch-data resume s [] h = refl
dispatch-data resume s ((now, k) ∷ ks) h =
    dispatch-data resume (dispatch_one resume now k s) ks h.1
    ∙ ap (λ (t : Sinks). record t { stats = on_data_packets t.stats ks })
        (dispatch_one-data resume now k s ((==_iff _ _).1 h.0))
