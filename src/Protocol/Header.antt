-- ===== src/Protocol/Header.antt =====
-- The header on the wire: its size, its round trip, and that it is read from the front only.
use my_iperf.Prelude.{
  ℕ, ◌+◌, ◌≤◌, ◌≡◌, refl, Bytes, ◌++◌, arith, length, take, drop, take-append_le, drop-append_le,
  get_or-append_lt, length-drop,
}
use my_iperf.Protocol.{PacketHeader, InRange, encode_header, decode_header, header_size}

pub length-encode_header : (h : PacketHeader) → length (encode_header h) ≡ header_size
unfolding encode_header
length-encode_header h = refl

-- Writing a header whose fields are in range and reading it back gives the same header, whatever
-- bytes follow it.
pub decode_header-encode_header :
    (h : PacketHeader) (rest : Bytes) → InRange h → decode_header (encode_header h ++ rest) ≡ h
unfolding encode_header decode_header
decode_header-encode_header h rest v = ground arith

slice-append :
    (i n : ℕ) (b c : Bytes) → i + n ≤ length b → take n (drop i (b ++ c)) ≡ take n (drop i b)
slice-append i n b c h =
    rw (drop-append_le i b c (omega arith))
      (take-append_le n (drop i b) c (omega (arith, length-drop i b)))

-- The header depends on the first 17 bytes only.
pub decode_header-append :
    (b c : Bytes) → header_size ≤ length b → decode_header (b ++ c) ≡ decode_header b
unfolding decode_header
decode_header-append b c h = rw (
  take-append_le 2 b c (omega arith),
  get_or-append_lt 2 b c 0 (omega arith),
  get_or-append_lt 3 b c 0 (omega arith),
  get_or-append_lt 4 b c 0 (omega arith),
  slice-append 5 4 b c (omega arith),
  slice-append 9 4 b c (omega arith),
  slice-append 13 4 b c (omega arith),
)
