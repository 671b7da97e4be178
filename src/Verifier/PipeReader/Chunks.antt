-- ===== src/Verifier/PipeReader/Chunks.antt =====
-- ResultPipeVerifier/src/main.cpp, `PipeReader`: the lines of a pipe do not depend on the pieces in
-- which its bytes arrive.
use my_iperf.Prelude.{
  suc, ◌≡◌, refl, sym, subst, ap, ap₂, ◌∙◌, Text, Bytes, List, [], ◌∷◌, ◌++◌, length, append_assoc,
  append-nil, arith,
}
use my_iperf.Verifier.PipeReader.{
  PipeReader, strip_return, consume_chunk, flush_pending, ReadResult, read_loop, run, set_error,
  add_line,
}
use my_iperf.Verifier.PipeReader.Split.{
  parts, keep, kept, text_lines, joined, parts-append, with_lines, with_none, result, add_line-keep,
  take_lines-parts,
}

-- The bytes that `read` returned before the first error.
unfoldable pub arrived : List ReadResult → Bytes
arrived [] = []
arrived (ReadResult.bytes_read bytes ∷ results) = bytes ++ arrived results
arrived (ReadResult.none_yet ∷ results) = arrived results
arrived (ReadResult.failed errno ∷ results) = []

keep-append : (l : Text) (xs ys : List Text) → keep l xs ++ ys ≡ keep l (xs ++ ys)
unfolding keep
keep-append [] xs ys = refl
keep-append (c ∷ l) xs ys = refl

kept-append : (xs ys : List Text) → kept (xs ++ ys) ≡ kept xs ++ kept ys
unfolding kept
kept-append [] ys = refl
kept-append (x ∷ xs) ys =
    ap (keep (strip_return x)) (kept-append xs ys)
    ∙ sym (keep-append (strip_return x) (kept xs) (kept ys))

consume_chunk-parts :
    (r : PipeReader) (w bytes : Text)
    → consume_chunk (result r (parts w)) bytes ≡ result r (parts (w ++ bytes))
unfolding consume_chunk joined
consume_chunk-parts r w bytes =
    let (lines, rest) = parts w in
    let more = parts (rest ++ bytes) in
    take_lines-parts (suc (length (rest ++ bytes))) (with_lines r (kept lines)) (rest ++ bytes)
      (omega arith)
    ∙ (ap (λ l. (record r { event_lines = l }, more.1))
          (append_assoc r.event_lines (kept lines) (kept more.0)
            ∙ ap (λ l. r.event_lines ++ l) (sym (kept-append lines more.0)))
        ∙ sym (ap (result r) (parts-append w bytes)))

-- What the loop leaves: the lines that have ended, and the rest.
record Left (r : PipeReader) (w : Text) (o : PipeReader × Text) : Type 0 where
  pub lines : o.0.event_lines ≡ r.event_lines ++ kept (parts w).0
  pub rest : o.1 ≡ (parts w).1

set_error-lines : (r : PipeReader) (e : Text) → (set_error r e).event_lines ≡ r.event_lines
unfolding set_error
set_error-lines r e = ground arith

read_loop-Left :
    (r : PipeReader) (w : Text) (results : List ReadResult)
    → Left r (w ++ arrived results) (read_loop (result r (parts w)) results)
unfolding read_loop arrived
read_loop-Left r w [] =
    subst (λ x. Left r x (result r (parts w))) (sym (append-nil w))
      (record { lines = refl; rest = refl })
read_loop-Left r w (ReadResult.bytes_read bytes ∷ results) =
    subst (λ x. Left r x (read_loop (consume_chunk (result r (parts w)) bytes) results))
      (append_assoc w bytes (arrived results))
      (subst (λ o. Left r ((w ++ bytes) ++ arrived results) (read_loop o results))
        (sym (consume_chunk-parts r w bytes)) (read_loop-Left r (w ++ bytes) results))
read_loop-Left r w (ReadResult.none_yet ∷ results) = read_loop-Left r w results
read_loop-Left r w (ReadResult.failed errno ∷ results) =
    subst (λ x. Left r x (read_loop (result r (parts w)) (ReadResult.failed errno ∷ results)))
      (sym (append-nil w))
      (record { lines = set_error-lines (with_lines r (kept (parts w).0)) _; rest = refl })

flush_pending-kept :
    (r : PipeReader) (p : Text)
    → (flush_pending (r, p)).event_lines ≡ r.event_lines ++ kept (p ∷ [])
unfolding flush_pending kept
flush_pending-kept r [] = sym (append-nil r.event_lines)
flush_pending-kept r (c ∷ p) =
    ap (λ o. o.event_lines)
      (sym (with_none (add_line r (strip_return (c ∷ p))))
        ∙ add_line-keep r (strip_return (c ∷ p)) [])

-- The reader finds exactly the lines of the bytes that arrive before the first error, in order, each
-- without its carriage return and the empty ones left out, whatever the pieces in which they arrive;
-- the last line need not end in a newline.
pub run-text_lines :
    (r : PipeReader) (results : List ReadResult)
    → (run r results).event_lines ≡ r.event_lines ++ text_lines (arrived results)
unfolding run text_lines parts
run-text_lines r results =
    let o = read_loop (r, []) results in
    let left : Left r (arrived results) o =
      subst (λ x. Left r (arrived results) (read_loop (x, []) results)) (with_none r)
        (read_loop-Left r [] results) in
    let (lines, rest) = parts (arrived results) in
    flush_pending-kept o.0 o.1
    ∙ (ap₂ (λ l x. l ++ kept (x ∷ [])) left.lines left.rest
        ∙ (append_assoc r.event_lines (kept lines) (kept (rest ∷ []))
            ∙ ap (λ l. r.event_lines ++ l) (sym (kept-append lines (rest ∷ [])))))
