-- ===== src/Bus/Fifo.antt =====
-- The order in which messages of one type reach the awaiters.
use my_iperf.Prelude.{
  ℕ, ◌≡◌, sym, ap, ◌∙◌, List, [], ◌∷◌, ◌++◌, ◌&&◌, not, none, some, arith, append_assoc, append-nil,
  ◌==◌, if◌then◌else◌,
}
use my_iperf.Protocol.{value, MessageType}
use my_iperf.Bus.Maps.{lookup}
use my_iperf.Bus.{
  ControlMessageBus, Message, Event, readies, suspends, expires, delivers, step, run, await_ready,
  await_suspend, deliver,
}
use my_iperf.Bus.Exclusive.{IsExclusive, step-IsExclusive}

-- The message that stands in an awaiter, as a list of at most one.
stored : ControlMessageBus → ℕ → List Message
stored b a = elim (b.awaiters a).message [ none ↦ [] | some m ↦ m ∷ [] ]

-- What an awaiter of type t finds in itself when a step lets its coroutine go on.
unfoldable pub handed : ControlMessageBus → ℕ → Event → List Message
unfolding stored
handed b t (readies a) =
    if (b.awaiters a).type == t && (await_ready b a).0 then stored (await_ready b a).1 a else []
handed b t (suspends a) =
    if (b.awaiters a).type == t && not (await_suspend b a).0
    then stored (await_suspend b a).1 a
    else []
handed b t (expires a) = []
handed b t (delivers h payload) = elim (lookup h.message_type b.pending_waits) [
  | none ↦ []
  | some a ↦
      if h.message_type == t && not (h.message_type == value MessageType.data_packet)
      then stored (deliver b h payload).1 a
      else []
]

-- The message that a step brings into the bus.
unfoldable pub brought : ℕ → Event → List Message
brought t (delivers h payload) =
    if h.message_type == t && not (h.message_type == value MessageType.data_packet)
    then record { header = h; payload = payload } ∷ []
    else []
brought t (readies a) = []
brought t (suspends a) = []
brought t (expires a) = []

unfoldable pub all_handed : ControlMessageBus → ℕ → List Event → List Message
all_handed b t [] = []
all_handed b t (e ∷ es) = handed b t e ++ all_handed (step b e) t es

unfoldable pub all_brought : ℕ → List Event → List Message
all_brought t [] = []
all_brought t (e ∷ es) = brought t e ++ all_brought t es

step-fifo :
    (b : ControlMessageBus) (t : ℕ) (e : Event)
    → IsExclusive b
    → handed b t e ++ (step b e).buffered_messages t ≡ b.buffered_messages t ++ brought t e
unfolding step handed brought
step-fifo b t (readies a) h = ground (arith, append-nil (b.buffered_messages t))
step-fifo b t (suspends a) h = ground (arith, append-nil (b.buffered_messages t))
step-fifo b t (expires a) h = ground (arith, append-nil (b.buffered_messages t))
step-fifo b t (delivers k payload) h = ground (arith, append-nil (b.buffered_messages t), h.apart t)

-- Over any history of the threads that share the bus: for each type, the messages handed to awaiters,
-- in that order, followed by those still buffered, are those buffered at first followed by those
-- delivered.
pub run-fifo :
    (b : ControlMessageBus) (t : ℕ) (es : List Event)
    → IsExclusive b
    → all_handed b t es ++ (run b es).buffered_messages t
      ≡ b.buffered_messages t ++ all_brought t es
unfolding run all_handed all_brought
run-fifo b t [] h = sym (append-nil (b.buffered_messages t))
run-fifo b t (e ∷ es) h =
    append_assoc (handed b t e) (all_handed (step b e) t es)
      ((run (step b e) es).buffered_messages t)
    ∙ ap (◌++◌ (handed b t e)) (run-fifo (step b e) t es (step-IsExclusive b e h))
    ∙ sym (append_assoc (handed b t e) ((step b e).buffered_messages t) (all_brought t es))
    ∙ ap (λ (x : List Message). x ++ all_brought t es) (step-fifo b t e h)
    ∙ append_assoc (b.buffered_messages t) (brought t e) (all_brought t es)
