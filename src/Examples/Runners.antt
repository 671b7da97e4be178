-- ===== src/Examples/Runners.antt =====
-- The test runners: their messages, and sockets that pass one byte at a time.
use my_iperf.Prelude.{
  ℕ, zero, suc, ◌≤◌, ◌≡◌, refl, sym, subst, Bytes, Text, text, true, Option, none, some, [], ◌∷◌,
  ◌++◌, length, take, arith, append-nil,
}
use my_iperf.Prelude.Int.{ℤ, pos, negsuc}
use my_iperf.Result.{Result, ok}
use my_iperf.Runner.{
  MessageType, TestResult, default_test_result, message_type_to_string, string_to_message_type,
  analyze_test_result,
}
use my_iperf.Runner.Kinds.{string_to_message_type_iff}
use my_iperf.Runner.Analysis.{IsClean, analyze_test_result_iff, analyze_test_result-twice}
use my_iperf.Runner.Messages.{LongLib}
use my_iperf.Runner.Plain.{IsReportable}
use my_iperf.Runner.Framing.{
  Socket, send_message, receive_message, send_all, sent_some, send_body, network_bytes,
}
use my_iperf.Runner.Framing.Bounds.{Received, receive_message-Received}
use my_iperf.Runner.Framing.Sending.{Handed, Accepts, frame, send_message-Handed}
use my_iperf.Runner.Framing.Delivery.{Arrives, receive_message-send}
use my_iperf.Examples.Texts.{texts, of_int, get_int}

abbrev get_long : Text → Result ℤ
get_long (n ∷ []) = ok (pos n)
get_long t = get_int t

pub get_long-of_long : (n : ℤ) → get_long (of_int n) ≡ ok n
get_long-of_long (pos n) = refl
get_long-of_long (negsuc n) = refl

abbrev pub longs : LongLib texts
longs = record {
  of_long = of_int;
  get_long = get_long;
  IsUtf8 = λ t. Unit {0};
  get_long-of_long = λ n h. get_long-of_long n;
  get_long-of_count = λ n h. refl;
  ascii-IsUtf8 = λ t h. tt;
  of_long-IsPlain = λ n. tt;
  of_int-IsPlain = λ n. tt;
  of_bool-IsPlain = λ b. tt;
  of_text-IsPlain = λ t h. tt;
  dump-with_member = λ k v root. refl;
}

-- A run that lost nothing.
abbrev pub good : TestResult ℕ
good = record (default_test_result 0) {
  role = text "Client";
  port = pos 5201;
  duration = 3;
  total_packets = pos 10;
  total_bytes = pos 80;
  success = true;
}

pub good-IsReportable : IsReportable longs good
good-IsReportable = record {
  role_utf8 = tt;
  port_int = omega arith;
  duration_finite = tt;
  throughput_finite = tt;
  host_total_bytes_long = omega arith;
  total_bytes_long = omega arith;
  total_packets_long = omega arith;
  expected_bytes_long = omega arith;
  expected_packets_long = omega arith;
  sequence_errors_long = omega arith;
  checksum_errors_long = omega arith;
  content_mismatches_long = omega arith;
  failure_reason_utf8 = tt;
}

string_to_message_type_iff_example :
    string_to_message_type (text "HEARTBEAT") ≡ ok MessageType.heartbeat
unfolding message_type_to_string
string_to_message_type_iff_example =
    (string_to_message_type_iff (text "HEARTBEAT") MessageType.heartbeat).1 refl

analyze_test_result_iff_example : IsClean good (pos 10) (pos 80)
unfolding analyze_test_result
analyze_test_result_iff_example = (analyze_test_result_iff good (pos 10) (pos 80)).0 refl

analyze_test_result-twice_example :
    (analyze_test_result (analyze_test_result good (pos 9) (pos 80)) (pos 9) (pos 80)).success
    ≡ (analyze_test_result good (pos 9) (pos 80)).success
analyze_test_result-twice_example = analyze_test_result-twice good (pos 9) (pos 80)

abbrev Ends : Type 0
Ends = Bytes × Bytes

abbrev send_byte : Ends → Bytes → Option ℕ × Ends
send_byte s [] = (some 0, s)
send_byte (out, arriving) (b ∷ bytes) = (some 1, (out ++ b ∷ [], arriving))

abbrev recv_byte : Ends → ℕ → Option Bytes × Ends
recv_byte s zero = (some [], s)
recv_byte (out, []) (suc n) = (some [], (out, []))
recv_byte (out, b ∷ arriving) (suc n) = (some (b ∷ []), (out, arriving))

abbrev LawfulSend : Ends → Bytes → Option ℕ × Ends → Type 0
LawfulSend s bytes (none, t) = t.0 ≡ s.0
LawfulSend s bytes (some n, t) = (n ≤ length bytes) × (t.0 ≡ s.0 ++ take n bytes)

abbrev LawfulRecv : Ends → ℕ → Option Bytes × Ends → Type 0
LawfulRecv s n (none, t) = t.1 ≡ s.1
LawfulRecv s n (some bs, t) = (length bs ≤ n) × (s.1 ≡ bs ++ t.1)

send_byte-LawfulSend : (s : Ends) (bytes : Bytes) → LawfulSend s bytes (send_byte s bytes)
send_byte-LawfulSend s [] = (omega arith, sym (append-nil s.0))
send_byte-LawfulSend (out, arriving) (b ∷ bytes) = (omega arith, refl)

recv_byte-LawfulRecv : (s : Ends) (n : ℕ) → LawfulRecv s n (recv_byte s n)
recv_byte-LawfulRecv s zero = (omega arith, refl)
recv_byte-LawfulRecv (out, []) (suc n) = (omega arith, refl)
recv_byte-LawfulRecv (out, b ∷ arriving) (suc n) = (omega arith, refl)

abbrev bytewise : Socket
bytewise = record {
  State = Ends;
  send = send_byte;
  recv = recv_byte;
  written = λ s. s.0;
  unread = λ s. s.1;
  send-some = λ s t bytes n e. subst (LawfulSend s bytes) e (send_byte-LawfulSend s bytes);
  send-none = λ s t bytes e. subst (LawfulSend s bytes) e (send_byte-LawfulSend s bytes);
  recv-some = λ s t n bs e. subst (LawfulRecv s n) e (recv_byte-LawfulRecv s n);
  recv-none = λ s t n e. subst (LawfulRecv s n) e (recv_byte-LawfulRecv s n);
}

bytewise-Accepts : Accepts bytewise
bytewise-Accepts (out, arriving) b bytes = (0, (out ++ b ∷ [], arriving), refl)

bytewise-Arrives : Arrives bytewise
bytewise-Arrives (out, []) n h k = absurd (h refl)
bytewise-Arrives (out, b ∷ arriving) zero h k = absurd (omega arith)
bytewise-Arrives (out, b ∷ arriving) (suc n) h k = (b, [], (out, arriving), refl)

-- "hi" behind its length, and the start of something else.
abbrev incoming : Ends
incoming = ([], 0 ∷ 0 ∷ 0 ∷ 2 ∷ 104 ∷ 105 ∷ 7 ∷ [])

receive_message-Received_example : Received bytewise incoming (receive_message bytewise incoming)
receive_message-Received_example = receive_message-Received bytewise incoming

send_message-Handed_example :
    Handed bytewise ([], []) (frame (text "hi")) (send_message bytewise ([], []) (text "hi"))
send_message-Handed_example = send_message-Handed bytewise ([], []) (text "hi")

receive_message-send_example :
    ((send_message bytewise ([], []) (text "hi")).0 ≡ true)
    × ((receive_message bytewise incoming).0 ≡ text "hi")
    × ((receive_message bytewise incoming).1.1 ≡ 7 ∷ [])
unfolding send_message send_all sent_some send_body network_bytes
receive_message-send_example =
    receive_message-send bytewise bytewise bytewise-Accepts bytewise-Arrives ([], []) incoming
      (text "hi") (0 ∷ 0 ∷ 0 ∷ 2 ∷ 104 ∷ 105 ∷ []) (7 ∷ []) (λ h. cc) (omega arith) refl refl
