-- ===== src/Verifier.antt =====
-- ResultPipeVerifier/src/main.cpp: the program that runs a server and a client and checks the events
-- that they write to their result pipes.
pub mod PipeReader
