-- ===== src/Runner/Output/Positions.antt =====
-- TestRunner/IpeftcOutputParser.cpp: where a marker is found in a text.
use my_iperf.Prelude.{
  ℕ, suc, ◌+◌, ◌-◌, ◌≡◌, refl, sym, ap, ◌∙◌, subst, Text, Bool, true, false, Option, none, some, [],
  ◌∷◌, ◌++◌, length, take, drop, ◌⊎◌, inl, inr, arith, append_assoc, length-append, take-append_le,
  drop-append_le, take-length, drop-length, if◌then◌else◌,
}
use my_iperf.Runner.Processes.{starts_with}
use my_iperf.Runner.Output.{shift, find, position, find_next_marker}

-- The marker does not begin within the first part of the text `before ++ t`.
abbrev pub NoneIn : Text → Text → Text → Type 0
NoneIn marker [] t = Unit {0}
NoneIn marker (c ∷ before) t =
    (starts_with marker (c ∷ (before ++ t)) ≡ false) × NoneIn marker before t

shift_more : (n : ℕ) (p : Option ℕ) → shift 1 (shift n p) ≡ shift (suc n) p
unfolding shift
shift_more n none = refl
shift_more n (some p) = ap some (omega arith)

shift-zero : (p : Option ℕ) → shift 0 p ≡ p
unfolding shift
shift-zero none = refl
shift-zero (some p) = ap some (omega arith)

find-skip :
    (marker before t : Text)
    → NoneIn marker before t
    → find marker (before ++ t) ≡ shift (length before) (find marker t)
unfolding find
find-skip marker [] t h = sym (shift-zero (find marker t))
find-skip marker (c ∷ before) t (h, hs) =
    ap (λ b. if b then some 0 else shift 1 (find marker (before ++ t))) h
    ∙ (ap (shift 1) (find-skip marker before t hs) ∙ shift_more (length before) (find marker t))

find-here : (marker t : Text) → starts_with marker t ≡ true → find marker t ≡ some 0
unfolding find
find-here marker [] h = ap (λ b. if b then some 0 else none) h
find-here marker (c ∷ t) h = ap (λ b. if b then some 0 else shift 1 (find marker t)) h

starts_with-append : (marker t : Text) → starts_with marker (marker ++ t) ≡ true
unfolding starts_with
starts_with-append [] t = refl
starts_with-append (m ∷ marker) t = ground (arith, starts_with-append marker t)

-- A marker that begins nowhere before is found where it stands.
pub find_first :
    (marker before t : Text)
    → NoneIn marker before (marker ++ t)
    → find marker (before ++ (marker ++ t)) ≡ some (length before)
unfolding shift
find_first marker before t h =
    find-skip marker before (marker ++ t) h
    ∙ (ap (shift (length before)) (find-here marker (marker ++ t) (starts_with-append marker t))
        ∙ ap some (omega arith))

-- The position of the marker, or else the end.
abbrev pub place : Text → Text → ℕ
place marker t = position (find marker t) 0 (length t)

position-shift :
    (p : Option ℕ) (start n rest size : ℕ)
    → size ≡ start + (n + rest)
    → position (shift n p) start size ≡ start + (n + position p 0 rest)
unfolding shift
position-shift none start n rest size e = e
position-shift (some p) start n rest size e = omega arith

drop_front : (a b : Text) → drop (length a) (a ++ b) ≡ b
drop_front a b = drop-append_le (length a) a b (omega arith) ∙ ap (λ t. t ++ b) (drop-length a)

find_next_marker-skip :
    (marker front before t : Text)
    → NoneIn marker before t
    → find_next_marker (front ++ (before ++ t)) (length front) marker
      ≡ length front + (length before + place marker t)
unfolding find_next_marker
find_next_marker-skip marker front before t h =
    let n = length front in
    let size = length (front ++ (before ++ t)) in
    let l1 = length-append front (before ++ t) in
    let l2 = length-append before t in
    ap (λ x. position (find marker x) n size) (drop_front front (before ++ t))
    ∙ (ap (λ o. position o n size) (find-skip marker before t h)
        ∙ position-shift (find marker t) n (length before) (length t) size (omega arith))

-- The text is empty or begins with the marker.
abbrev pub EndsAt : Text → Text → Type 0
EndsAt marker t = (t ≡ []) ⊎ (starts_with marker t ≡ true)

place_none : (b : Bool) → position (if b then some 0 else none) 0 0 ≡ 0
place_none true = refl
place_none false = refl

pub place-EndsAt : (marker t : Text) → EndsAt marker t → place marker t ≡ 0
unfolding find
place-EndsAt marker t (inl e) =
    subst (λ x. place marker x ≡ 0) (sym e) (place_none (starts_with marker []))
place-EndsAt marker t (inr h) = ap (λ o. position o 0 (length t)) (find-here marker t h)

-- The piece of a text between two positions.
slice_between :
    (before piece rest : Text) (end : ℕ)
    → end ≡ length before + length piece
    → take (end - length before) (drop (length before) (before ++ (piece ++ rest))) ≡ piece
slice_between before piece rest end e =
    let size : end - length before ≡ length piece = omega arith in
    ap (λ t. take (end - length before) t) (drop_front before (piece ++ rest))
    ∙ (ap (λ n. take n (piece ++ rest)) size
        ∙ (take-append_le (length piece) piece rest (omega arith) ∙ take-length piece))

-- The label or title `front`, what is behind it up to the end that is computed.
pub slice_from :
    (before front body rest : Text) (end : ℕ)
    → end ≡ length before + (length front + length body)
    → take (end - length before) (drop (length before) (before ++ (front ++ (body ++ rest))))
      ≡ front ++ body
slice_from before front body rest end e =
    let l = length-append front body in
    ap (λ t. take (end - length before) (drop (length before) (before ++ t)))
      (sym (append_assoc front body rest))
    ∙ slice_between before (front ++ body) rest end (omega arith)

pub next_in :
    (marker before front body rest : Text)
    → NoneIn marker body rest
    → find_next_marker (before ++ (front ++ (body ++ rest))) (length before + length front) marker
      ≡ length before + (length front + (length body + place marker rest))
next_in marker before front body rest h =
    let l = length-append before front in
    ap (λ t. find_next_marker t (length before + length front) marker)
      (sym (append_assoc before front (body ++ rest)))
    ∙ (ap (λ n. find_next_marker ((before ++ front) ++ (body ++ rest)) n marker) (sym l)
        ∙ (find_next_marker-skip marker (before ++ front) body rest h ∙ omega arith))
