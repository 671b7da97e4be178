-- ===== src/Bus.antt =====
-- MyIperf/src/myiperf/ControlMessageBus.{h,cpp}: control messages wait for coroutines, and coroutines
-- for messages. Each operation runs under the bus's mutex, so it is one step. An awaiter is an object
-- that the bus points to: awaiters stand in a store and are named by numbers. Resuming a coroutine is
-- the caller's next step: an operation returns the awaiter whose coroutine it resumes.
pub mod Maps
pub mod Exclusive
pub mod Suspended
pub mod Fifo
pub mod Wakeups
use my_iperf.Prelude.{
  ℕ, List, [], ◌∷◌, ◌++◌, Bool, true, false, not, ◌||◌, Option, none, some, Bytes, ◌==◌,
  if◌then◌else◌,
}
use my_iperf.Prelude.Int.{ℤ, pos, ltb_ℤ}
use my_iperf.Protocol.{PacketHeader, MessageType, value}
use Maps.{Map, lookup, insert, erase, update}

pub record Message : Type 0 where
  pub header : PacketHeader
  pub payload : Bytes

pub record Awaiter : Type 0 where
  pub type : ℕ
  pub timeout_ms : ℤ
  pub cancel_timer : Bool
  pub has_timer : Bool
  pub has_continuation : Bool
  pub message : Option Message
  pub timed_out : Bool
  pub cancelled : Bool

-- `std::map` iterates over its keys in order; `buffered_messages[type]` makes an empty queue where
-- there is none, so that map is a function.
pub record ControlMessageBus : Type 0 where
  pub pending_waits : Map ℕ
  pub buffered_messages : ℕ → List Message
  pub awaiters : ℕ → Awaiter

-- `waitFor` constructs an awaiter; nothing is registered before it is awaited.
unfoldable pub wait_for : ℕ → ℤ → Awaiter
wait_for type timeout_ms = record {
  type = type;
  timeout_ms = timeout_ms;
  cancel_timer = false;
  has_timer = false;
  has_continuation = false;
  message = none;
  timed_out = false;
  cancelled = false;
}

set_awaiter : ControlMessageBus → ℕ → Awaiter → ControlMessageBus
set_awaiter b a w = record b { awaiters = update b.awaiters a w }

-- The front of a queue goes to the awaiter; `none` where the queue is empty.
take_front : ControlMessageBus → ℕ → List Message → Option ControlMessageBus
unfolding set_awaiter
take_front b a [] = none
take_front b a (m ∷ rest) =
    let w = b.awaiters a in
    some (record b {
      buffered_messages = update b.buffered_messages w.type rest;
      awaiters = update b.awaiters a (record w { message = some m });
    })

unfoldable pub try_take_buffered_message : ControlMessageBus → ℕ → Option ControlMessageBus
unfolding take_front
try_take_buffered_message b a = take_front b a (b.buffered_messages (b.awaiters a).type)

-- `true`: a message was there, and the coroutine goes on without a stop.
unfoldable pub await_ready : ControlMessageBus → ℕ → Bool × ControlMessageBus
unfolding try_take_buffered_message
await_ready b a = elim (try_take_buffered_message b a) [ none ↦ (false, b) | some b' ↦ (true, b') ]

-- The handle is stored and the timer started before the lock is taken.
prepare_wait : ControlMessageBus → ℕ → ControlMessageBus
unfolding set_awaiter
prepare_wait b a =
    let w = b.awaiters a in
    set_awaiter b a (record w { has_continuation = true; has_timer = ltb_ℤ (pos 0) w.timeout_ms })

-- Under the lock: a message may have come since `await_ready`.
suspend_on : ControlMessageBus → ℕ → ℕ → List Message → Bool × ControlMessageBus
suspend_on b a type [] = (true, record b { pending_waits = insert type a b.pending_waits })
suspend_on b a type (m ∷ rest) = (
  false,
  record b {
    buffered_messages = update b.buffered_messages type rest;
    awaiters =
        update b.awaiters a (record (b.awaiters a) { message = some m; cancel_timer = true });
  },
)

-- `false`: the coroutine goes on at once with the message that it found.
unfoldable pub await_suspend : ControlMessageBus → ℕ → Bool × ControlMessageBus
unfolding prepare_wait suspend_on
await_suspend b a =
    let type = (b.awaiters a).type in
    suspend_on (prepare_wait b a) a type (b.buffered_messages type)

-- The timer thread, if it was started, once its time is over: it ends the wait only if this awaiter is still pending.
unfoldable pub timer_expires : ControlMessageBus → ℕ → Option ℕ × ControlMessageBus
unfolding set_awaiter
timer_expires b a =
    let w = b.awaiters a in
    let ended = record b {
      pending_waits = erase w.type b.pending_waits;
      awaiters = update b.awaiters a (record w { timed_out = true });
    } in
    if not w.has_timer || w.cancel_timer then (none, b) else elim (lookup w.type b.pending_waits) [
      | none ↦ (none, b)
      | some a' ↦ if a' == a then (some a, ended) else (none, b)
    ]

pub data Resumption : Type 0 where
  received : Option Message → Resumption
  operation_cancelled : Resumption
  timeout_waiting : ℕ → Resumption

-- What the awaiting coroutine gets when it goes on; the last two are exceptions.
unfoldable pub await_resume : ControlMessageBus → ℕ → Resumption
await_resume b a =
    let w = b.awaiters a in
    if w.cancelled
    then operation_cancelled
    else if w.timed_out
    then timeout_waiting w.type
    else received w.message

hand_over : ControlMessageBus → Message → ℕ → ControlMessageBus
hand_over b m a = record b {
  pending_waits = erase m.header.message_type b.pending_waits;
  awaiters = update b.awaiters a (record (b.awaiters a) { message = some m });
}

enqueue : ControlMessageBus → Message → ControlMessageBus
enqueue b m = record b {
  buffered_messages =
      update b.buffered_messages m.header.message_type
        (b.buffered_messages m.header.message_type ++ m ∷ []);
}

-- The continuation of the awaiter that the message was handed to.
unfoldable pub take_continuation_for_message :
    ControlMessageBus → Message → Option ℕ × ControlMessageBus
unfolding hand_over enqueue
take_continuation_for_message b m = elim (lookup m.header.message_type b.pending_waits) [
  | none ↦ (none, enqueue b m)
  | some a ↦ (if (b.awaiters a).has_continuation then some a else none, hand_over b m a)
]

unfoldable pub deliver : ControlMessageBus → PacketHeader → Bytes → Option ℕ × ControlMessageBus
unfolding take_continuation_for_message
deliver b h payload =
    if h.message_type == value MessageType.data_packet
    then (none, b)
    else take_continuation_for_message b (record { header = h; payload = payload })

unfoldable pub clear : ControlMessageBus → ControlMessageBus
clear b = record b { pending_waits = []; buffered_messages = λ t. [] }

cancel_awaiters : Map ℕ → (ℕ → Awaiter) → (ℕ → Awaiter)
cancel_awaiters [] store = store
cancel_awaiters ((t, a) ∷ m) store =
    cancel_awaiters m (update store a (record (store a) { cancelled = true }))

continuations : Map ℕ → (ℕ → Awaiter) → List ℕ
continuations [] store = []
continuations ((t, a) ∷ m) store =
    let rest = continuations m store in if (store a).has_continuation then a ∷ rest else rest

-- Returns the coroutines that are resumed, in the order of the map.
unfoldable pub cancel_all : ControlMessageBus → List ℕ × ControlMessageBus
unfolding cancel_awaiters continuations
cancel_all b = (
  continuations b.pending_waits b.awaiters,
  record {
    pending_waits = [];
    buffered_messages = λ t. [];
    awaiters = cancel_awaiters b.pending_waits b.awaiters;
  },
)

-- One step of the threads that share the bus.
pub data Event : Type 0 where
  readies : ℕ → Event
  suspends : ℕ → Event
  expires : ℕ → Event
  delivers : PacketHeader → Bytes → Event

unfoldable pub step : ControlMessageBus → Event → ControlMessageBus
unfolding await_ready await_suspend timer_expires deliver
step b (readies a) = (await_ready b a).1
step b (suspends a) = (await_suspend b a).1
step b (expires a) = (timer_expires b a).1
step b (delivers h payload) = (deliver b h payload).1

unfoldable pub run : ControlMessageBus → List Event → ControlMessageBus
unfolding step
run b [] = b
run b (e ∷ es) = run (step b e) es
