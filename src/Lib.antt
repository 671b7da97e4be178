-- ===== src/Lib.antt =====
-- MyIperf: a TCP throughput tester in which a client and a server send each other numbered packets in
-- two phases and judge what arrived.
--
-- The parts and how they interact. A PacketGenerator cuts a run into packets (Protocol.h) and hands
-- them to the network. On the other side a PacketReceiver reads pieces of the byte stream, its
-- PacketStreamParser finds the packets in them, and its PacketDispatcher counts the data packets in
-- PacketReceiveStats and delivers the control messages to the ControlMessageBus, where the session's
-- coroutines wait for them. TestController turns the statistics of the two phases into a result.
--
-- Which file models which part (paths under MyIperf/, but TestRunner/ and ResultPipeVerifier/ beside it):
--   Protocol.antt      include/myiperf/Protocol.h: header, checksum, expected payload
--   Stats.antt         include/myiperf/Protocol.h: TestStats
--   Parser.antt        src/myiperf/PacketStreamParser.cpp: `drainPackets` is `drain_packets`, and one
--                      round of its loop is `round`
--   Bus.antt           src/myiperf/ControlMessageBus.cpp: `await_ready`, `await_suspend`, `deliver`, …
--   ReceiveStats.antt  src/myiperf/PacketReceiveStats.cpp: `onDataPacket` is `on_data_packet`
--   Dispatcher.antt    src/myiperf/PacketDispatcher.cpp: `dispatch`
--   Receiver.antt      src/myiperf/PacketReceiver.cpp: `receiverLoop` is `receiver_loop`
--   Generator.antt     src/myiperf/PacketGenerator.cpp: `sendPackets` is `send_packets`
--   Config.antt        src/myiperf/Config.cpp: the setters, `toJson`, `fromJson`
--   RunResult.antt     src/myiperf/TestController.cpp: `validateReceiverStats`, `buildCurrentResult`,
--                      and include/myiperf/TestRunResult.h (RunResult/RunJson.antt)
--   StatsJson.antt     include/myiperf/Protocol.h, src/myiperf/ControlProtocol.cpp: statistics as messages
--   Session.antt       src/myiperf/ClientTestSession.cpp and ServerTestSession.cpp as scripts
--                      (Session/Client.antt, Session/Server.antt), and their steps
--                      (Session/Steps.antt: `advance` for one side, `run_pair` for both;
--                      Session/Interruptions.antt: `run_events`, with exceptions)
--   ControlPacket.antt src/myiperf/ControlProtocol.cpp: the packet of a control message
--   Controller.antt    src/myiperf/TestController.cpp: how a run ends, by itself or by `stopTest`
--   Runner.antt        TestRunner/Protocol.h and Message.{h,cpp}: the messages of the test runners
--                      (Runner/Messages.antt: as JSON), ControlServer.cpp: how they stand on a
--                      stream (Runner/Framing.antt),
--                      TestRunner/ProcessManager.cpp: its child processes (Runner/Processes.antt),
--                      ControlServer.cpp, HandleClient (Runner/Serving.antt), ControlClient.cpp, RunTest
--                      (Runner/Testing.antt), ProcessManager.cpp, ParseResultFile
--                      (Runner/ResultFile.antt), and IpeftcOutputParser.cpp (Runner/Output.antt)
--   CommandLine.antt   app/ipeftc/CLIHandler.cpp: parseArgs, and TestRunner/ProcessManager.cpp: the
--                      command lines that it builds (CommandLine/Arguments.antt)
--   ResultEventSink.antt  src/myiperf/ResultEventSink.cpp: the queue of result events and its
--                      thread; a call of `publish` is two steps
--   Verifier.antt      ResultPipeVerifier/src/main.cpp: the reader of a result pipe
--                      (Verifier/PipeReader.antt)
--   EndToEnd.antt      generator, parser, dispatcher, statistics and verdict together
--   Result.antt, Json.antt  exceptions as values, and the JSON library as a parameter
-- The modules below a component hold the proofs about it.
--
-- Bounds and fuel. A byte is a number below 256 and a header field a number that wraps at the width of
-- its C++ type (`% 2 ^ 32` for the packet counter and the checksum). The `long long` counters are
-- numbers without a bound: their overflow is undefined in C++. The loop of `drainPackets` runs on fuel,
-- the length of the buffer plus one, because each round that goes on takes at least one byte. The loops
-- over the network run over the list of what the network did. The loop that waits for a server's
-- process runs on fuel, one round for each pause of 50 ms in the timeout.
--
-- Parameters. The clock's readings and the results of the network calls are arguments. `Floats` stands
-- for the `double` fields, of which only their being carried along matters. `JsonLib` stands for
-- nlohmann::json. `Socket` and `System` stand for the calls of the operating system on a connected
-- socket and on processes and pipes, with the laws that they keep; `Reports` for what the test runner
-- gets to know of a process and of its sends, and `Reading` for regular expressions and the reading of numbers. The
-- effect of a coroutine that a delivery resumes is the argument `Resume`. The header's layout is that
-- of a little-endian machine.
--
-- The sessions. A coroutine is a `Script`: what it does up to its next suspension. The two sides move in
-- any order; `Surroundings` says what happens around one of them. The message bus is taken by its
-- contract. Session/Interruptions.antt has the exceptions of a wait that times out or is cancelled and of
-- a send that fails, which may come at any moment; no clock decides whether a timer runs out.
--
-- Not modelled: sockets and their event loops (src/myiperf/platform), the logger, threads other than as
-- sequences of locked steps, the Windows variants of processes and pipes, the writing of result files,
-- the opening of connections and pipes, the verifier's judgement of the events, the viewer, and the
-- third-party JSON library. `clear` and `cancelAll` are definitions but not steps of the histories of
-- the bus.
pub mod Prelude
pub mod Protocol
pub mod Parser
pub mod Bus
pub mod Stats
pub mod ReceiveStats
pub mod Result
pub mod Json
pub mod Config
pub mod Generator
pub mod Dispatcher
pub mod Receiver
pub mod RunResult
pub mod StatsJson
pub mod Session
pub mod ControlPacket
pub mod Controller
pub mod Runner
pub mod ResultEventSink
pub mod Verifier
pub mod CommandLine
pub mod EndToEnd
mod Examples
