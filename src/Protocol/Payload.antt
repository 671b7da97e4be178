-- ===== src/Protocol/Payload.antt =====
-- Bounds of the checksum and the length of the deterministic payload.
use my_iperf.Prelude.{
  ℕ, ◌+◌, ◌-◌, ◌%◌, ◌^◌, ◌≤◌, ◌<◌, ◌≡◌, refl, ap, Bytes, [], ◌∷◌, ◌++◌, arith, length, take, Text,
  text, to_string, length-append, length-take, length-replicate, take-append_le, replicate,
}
use my_iperf.Protocol.{calculate_checksum, checksum_from, build_expected_payload, resize}

checksum_from-lt : (sum : ℕ) (bs : Bytes) → sum < 2 ^ 32 → checksum_from sum bs < 2 ^ 32
unfolding checksum_from
checksum_from-lt sum [] h = h
checksum_from-lt sum (b ∷ bs) h = checksum_from-lt ((sum + b) % 2 ^ 32) bs (omega arith)

pub calculate_checksum-lt : (bs : Bytes) (n : ℕ) → calculate_checksum bs n < 2 ^ 32
unfolding calculate_checksum
calculate_checksum-lt bs n = checksum_from-lt 0 (take n bs) (omega arith)

-- Bytes after the payload do not change its checksum.
pub calculate_checksum-append :
    (bs cs : Bytes) (n : ℕ)
    → n ≤ length bs
    → calculate_checksum (bs ++ cs) n ≡ calculate_checksum bs n
unfolding calculate_checksum
calculate_checksum-append bs cs n h = rw (take-append_le n bs cs h)

length-resize : (s : Text) (n c : ℕ) → length (resize s n c) ≡ n
length-resize s n c = omega (
  arith,
  length-append (take n s) (replicate (n - length s) c),
  length-take n s,
  length-replicate (n - length s) c,
)

-- The deterministic payload has exactly the requested size.
pub length-build_expected_payload :
    (counter size : ℕ) → length (build_expected_payload counter size) ≡ size
unfolding build_expected_payload
length-build_expected_payload counter size =
    let payload = text "Packet " ++ to_string counter in
    ground (arith, length-resize payload size b'.', length-resize payload size 0)

take-take : (n : ℕ) (bs : Bytes) → take n (take n bs) ≡ take n bs
take-take ℕ.zero bs = refl
take-take (ℕ.suc n) [] = refl
take-take (ℕ.suc n) (b ∷ bs) = ap (◌∷◌ b) (take-take n bs)

-- The checksum reads no further than the payload.
pub calculate_checksum-take :
    (bs : Bytes) (n : ℕ) → calculate_checksum (take n bs) n ≡ calculate_checksum bs n
unfolding calculate_checksum
calculate_checksum-take bs n = rw (take-take n bs)
