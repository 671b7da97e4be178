-- ===== src/Runner/Output/Slices.antt =====
-- TestRunner/IpeftcOutputParser.cpp: the part of the output that the parser reads.
use my_iperf.Prelude.{
  ◌+◌, ◌-◌, ◌≡◌, sym, ap, ◌∙◌, Text, text, Bool, true, none, some, [], ◌++◌, length, take, drop,
  ◌⊎◌, inl, inr, arith, append_assoc, length-append,
}
use my_iperf.Stats.{Floats}
use my_iperf.Runner.{TestResult}
use my_iperf.Runner.Processes.{starts_with}
use my_iperf.Runner.Output.{
  find_next_marker, slice_phase, block_end, slice_label_block, Reading, fill_stats_from_block,
  try_parse_preferred_block,
}
use my_iperf.Runner.Output.Positions.{NoneIn, find_first, EndsAt, place-EndsAt, slice_from, next_in}

slice_phase-first :
    (before phase body rest : Text)
    → NoneIn phase before (phase ++ (body ++ rest))
    → NoneIn (text "Test Phase ") body rest
    → EndsAt (text "Test Phase ") rest
    → slice_phase (before ++ (phase ++ (body ++ rest))) phase ≡ phase ++ body
unfolding slice_phase
slice_phase-first before phase body rest first inside end =
    let output = before ++ (phase ++ (body ++ rest)) in
    let next = next_in (text "Test Phase ") before phase body rest inside in
    let zero_place = place-EndsAt (text "Test Phase ") rest end in
    ap
      (λ o. elim o [
        | none ↦ []
        | some begin ↦
            take (find_next_marker output (begin + length phase) (text "Test Phase ") - begin)
              (drop begin output)
      ])
      (find_first phase before (body ++ rest) first)
    ∙ slice_from before phase body rest
        (find_next_marker output (length before + length phase) (text "Test Phase ")) (omega arith)

-- What ends a block of statistics.
abbrev pub NoMark : Text → Text → Type 0
NoMark body rest =
    NoneIn (text "Client-side") body rest
    × NoneIn (text "Server-side") body rest
    × NoneIn (text "----------------------------") body rest

abbrev pub Marked : Text → Type 0
Marked rest =
    (rest ≡ [])
    ⊎ (starts_with (text "Client-side") rest ≡ true)
    ⊎ (starts_with (text "Server-side") rest ≡ true)
    ⊎ (starts_with (text "----------------------------") rest ≡ true)

block_end-Marked :
    (before label body rest : Text)
    → NoMark body rest
    → Marked rest
    → block_end (before ++ (label ++ (body ++ rest))) (length before + length label)
      ≡ length before + (length label + length body)
unfolding block_end
block_end-Marked before label body rest (h1, h2, h3) marked =
    let l1 = length-append before (label ++ (body ++ rest)) in
    let l2 = length-append label (body ++ rest) in
    let l3 = length-append body rest in
    let e1 = next_in (text "Client-side") before label body rest h1 in
    let e2 = next_in (text "Server-side") before label body rest h2 in
    let e3 = next_in (text "----------------------------") before label body rest h3 in
    elim marked [
      | inl e ↦
          let size : length rest ≡ 0 = ap length e in
          let z1 = place-EndsAt (text "Client-side") rest (inl e) in
          let z2 = place-EndsAt (text "Server-side") rest (inl e) in
          let z3 = place-EndsAt (text "----------------------------") rest (inl e) in omega arith
      | inr (inl h) ↦ let z = place-EndsAt (text "Client-side") rest (inr h) in omega arith
      | inr (inr (inl h)) ↦ let z = place-EndsAt (text "Server-side") rest (inr h) in omega arith
      | inr (inr (inr h)) ↦
          let z = place-EndsAt (text "----------------------------") rest (inr h) in omega arith
    ]

slice_label_block-first :
    (before label body rest : Text)
    → NoneIn label before (label ++ (body ++ rest))
    → NoMark body rest
    → Marked rest
    → slice_label_block (before ++ (label ++ (body ++ rest))) label ≡ label ++ body
unfolding slice_label_block
slice_label_block-first before label body rest first inside end =
    let phase_text = before ++ (label ++ (body ++ rest)) in
    ap
      (λ o. elim o [
        | none ↦ []
        | some begin ↦
            take (block_end phase_text (begin + length label) - begin) (drop begin phase_text)
      ])
      (find_first label before (body ++ rest) first)
    ∙ slice_from before label body rest (block_end phase_text (length before + length label))
        (block_end-Marked before label body rest inside end)

module _ {f : Floats} (reading : Reading f) where
  -- Of an output, the parser fills the result from exactly one block: the first block of that label in the
  -- first phase of that title. Here `before` is what stands before the phase, `head` what stands
  -- between its title and the label, and `body` the block behind the label, which goes up to the next
  -- label or rule (or the end of the phase), as the phase does up to the next phase (or the end of the
  -- output); no title, label or rule begins earlier than where the text shows it.
  pub try_parse_preferred_block-fill :
      (before title head label body tail rest : Text) (prefer_sent : Bool)
      (result : TestResult f.Real)
      → let inner = head ++ (label ++ (body ++ tail)) in
        NoneIn title before (title ++ (inner ++ rest))
        → NoneIn (text "Test Phase ") inner rest
        → EndsAt (text "Test Phase ") rest
        → NoneIn label (title ++ head) (label ++ (body ++ tail))
        → NoMark body tail
        → Marked tail
        → try_parse_preferred_block reading
            (before ++ (title ++ (inner ++ rest)))
            title
            label
            prefer_sent
            result
          ≡ fill_stats_from_block reading (label ++ body) prefer_sent result
  unfolding try_parse_preferred_block
  try_parse_preferred_block-fill before title head label body tail rest prefer_sent result h1 h2 h3
        h4 h5 h6 =
      let inner = head ++ (label ++ (body ++ tail)) in
      ap (λ t. fill_stats_from_block reading (slice_label_block t label) prefer_sent result)
        (slice_phase-first before title inner rest h1 h2 h3
          ∙ sym (append_assoc title head (label ++ (body ++ tail))))
      ∙ ap (λ t. fill_stats_from_block reading t prefer_sent result)
          (slice_label_block-first (title ++ head) label body tail h4 h5 h6)
