-- ===== src/Verifier/PipeReader.antt =====
-- ResultPipeVerifier/src/main.cpp, class `PipeReader`: the lines of a pipe, whose bytes arrive in
-- pieces. Opening the pipe and the deadline of the loop are left out: a run is the list of results of
-- `read` until the loop ends.
pub mod Split
pub mod Chunks
use my_iperf.Prelude.{
  ℕ, zero, suc, ◌+◌, ◌-◌, Text, text, Bytes, Bool, true, false, Option, none, some, List, [], ◌∷◌,
  ◌++◌, length, take, drop, is_empty, ◌==◌, if◌then◌else◌, to_string,
}

pub record PipeReader : Type 0 where
  pub name : Text
  pub event_lines : List Text
  pub error : Text

unfoldable pub add_line : PipeReader → Text → PipeReader
add_line r line = if is_empty line then r else record r { event_lines = r.event_lines ++ line ∷ [] }

unfoldable pub set_error : PipeReader → Text → PipeReader
set_error r message = if is_empty r.error then record r { error = message } else r

abbrev pub newline : ℕ
newline = 10

abbrev pub carriage_return : ℕ
carriage_return = 13

-- `s.find(c)`.
unfoldable pub find : ℕ → Text → Option ℕ
find c [] = none
find c (x ∷ s) =
    let later = find c s in
    if x == c then some 0 else elim later [ none ↦ none | some n ↦ some (suc n) ]

-- `if (!line.empty() && line.back() == '\r') line.pop_back();`
unfoldable pub strip_return : Text → Text
strip_return [] = []
strip_return (c ∷ []) = if c == carriage_return then [] else c ∷ []
strip_return (c ∷ d ∷ s) = c ∷ strip_return (d ∷ s)

-- The loop of `consumeChunk` on what is behind `pos`. Each round drops the bytes up to a newline, so
-- the length plus one is fuel enough.
unfoldable pub take_lines : ℕ → PipeReader → Text → PipeReader × Text
unfolding find strip_return add_line
take_lines zero r pending = (r, pending)
take_lines (suc fuel) r pending = elim (find newline pending) [
  | none ↦ (r, pending)
  | some n ↦ take_lines fuel (add_line r (strip_return (take n pending))) (drop (suc n) pending)
]

unfoldable pub consume_chunk : PipeReader × Text → Bytes → PipeReader × Text
unfolding take_lines
consume_chunk (r, pending) bytes =
    let pending' = pending ++ bytes in take_lines (suc (length pending')) r pending'

unfoldable pub flush_pending : PipeReader × Text → PipeReader
unfolding add_line strip_return
flush_pending (r, pending) = if is_empty pending then r else add_line r (strip_return pending)

-- What `read` returns: bytes, nothing for now, or an error with its number.
pub data ReadResult : Type 0 where
  bytes_read : Bytes → ReadResult
  none_yet : ReadResult
  failed : ℕ → ReadResult

-- The loop of `run` on an open pipe.
unfoldable pub read_loop : PipeReader × Text → List ReadResult → PipeReader × Text
unfolding consume_chunk set_error to_string
read_loop s [] = s
read_loop s (ReadResult.bytes_read bytes ∷ results) = read_loop (consume_chunk s bytes) results
read_loop s (ReadResult.none_yet ∷ results) = read_loop s results
read_loop (r, pending) (ReadResult.failed errno ∷ results) =
    (set_error r (r.name ++ (text " FIFO read failed: errno=" ++ to_string errno)), pending)

unfoldable pub run : PipeReader → List ReadResult → PipeReader
unfolding read_loop flush_pending
run r results = flush_pending (read_loop (r, []) results)
