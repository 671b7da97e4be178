-- ===== src/EndToEnd.antt =====
-- A whole phase of a test: PacketGenerator on one side, the byte stream of the network between, and
-- PacketReceiver with its parser, dispatcher and counters on the other.
mod Reading
pub mod Transfer
pub mod Events
