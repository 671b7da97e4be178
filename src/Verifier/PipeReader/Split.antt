-- ===== src/Verifier/PipeReader/Split.antt =====
-- The lines of a text, by its structure, and what a reader makes of its pieces.
use my_iperf.Prelude.{
  ℕ, zero, suc, ◌<◌, ◌≡◌, refl, sym, subst, ap, ◌∙◌, inl, inr, Text, true, false, Option, none,
  some, List, [], ◌∷◌, ◌++◌, length, take, drop, ◌==◌, if◌then◌else◌, append_assoc, append-nil,
  length-drop, Bool-cases, arith,
}
use my_iperf.Verifier.PipeReader.{PipeReader, add_line, newline, find, strip_return, take_lines}

-- A byte in front of the first of the whole lines, or of the rest if there is none.
abbrev pub push : ℕ → List Text × Text → List Text × Text
push c ([], rest) = ([], c ∷ rest)
push c (line ∷ lines, rest) = ((c ∷ line) ∷ lines, rest)

abbrev end_line : List Text × Text → List Text × Text
end_line (lines, rest) = ([] ∷ lines, rest)

-- The lines of a text that end in a newline, and the rest behind the last newline.
unfoldable pub parts : Text → List Text × Text
parts [] = ([], [])
parts (c ∷ s) = let later = parts s in if c == newline then end_line later else push c later

-- `lines` behind a line that is not empty.
unfoldable pub keep : Text → List Text → List Text
keep [] lines = lines
keep (c ∷ line) lines = (c ∷ line) ∷ lines

-- The lines without their carriage returns, those that are empty left out.
unfoldable pub kept : List Text → List Text
unfolding keep
kept [] = []
kept (line ∷ lines) = keep (strip_return line) (kept lines)

-- The lines of a text; the last one need not end.
unfoldable pub text_lines : Text → List Text
unfolding parts kept
text_lines s = kept ((parts s).0 ++ (parts s).1 ∷ [])

abbrev after : ℕ → Text → List Text × Text
unfolding parts
after n s = (take n s ∷ (parts (drop (suc n) s)).0, (parts (drop (suc n) s)).1)

-- A text in which a newline was looked for.
abbrev Found : Text → Option ℕ → Type 0
Found s none = parts s ≡ ([], s)
Found s (some n) = (n < length s) × (parts s ≡ after n s)

later : Option ℕ → Option ℕ
later none = none
later (some n) = some (suc n)

pub parts-other : (c : ℕ) (s : Text) → (c == newline) ≡ false → parts (c ∷ s) ≡ push c (parts s)
unfolding parts
parts-other c s e = ap (λ b. if b then end_line (parts s) else push c (parts s)) e

parts-front : (c : ℕ) (s : Text) → (c == newline) ≡ true → parts (c ∷ s) ≡ end_line (parts s)
unfolding parts
parts-front c s e = ap (λ b. if b then end_line (parts s) else push c (parts s)) e

later-Found :
    (c : ℕ) (s : Text) (o : Option ℕ) → Found s o → (c == newline) ≡ false → Found (c ∷ s) (later o)
unfolding later after
later-Found c s none h e = parts-other c s e ∙ ap (push c) h
later-Found c s (some n) h e = (omega (arith, h.0), parts-other c s e ∙ ap (push c) h.1)

find-other :
    (c : ℕ) (s : Text) → (c == newline) ≡ false → find newline (c ∷ s) ≡ later (find newline s)
unfolding find later
find-other c s e = ap (λ b. if b then some 0 else later (find newline s)) e

front-Found : (c : ℕ) (s : Text) → (c == newline) ≡ true → Found (c ∷ s) (some 0)
unfolding after
front-Found c s e = (omega arith, parts-front c s e)

find-front : (c : ℕ) (s : Text) → (c == newline) ≡ true → find newline (c ∷ s) ≡ some 0
unfolding find later
find-front c s e = ap (λ b. if b then some 0 else later (find newline s)) e

find-Found : (s : Text) → Found s (find newline s)
unfolding find parts
find-Found [] = refl
find-Found (c ∷ s) = elim (Bool-cases (c == newline)) [
  | inl e ↦ subst (Found (c ∷ s)) (sym (find-front c s e)) (front-Found c s e)
  | inr e ↦
      subst (Found (c ∷ s)) (sym (find-other c s e))
        (later-Found c s (find newline s) (find-Found s) e)
]

abbrev pub with_lines : PipeReader → List Text → PipeReader
with_lines r lines = record r { event_lines = r.event_lines ++ lines }

abbrev pub result : PipeReader → List Text × Text → PipeReader × Text
result r (lines, rest) = (with_lines r (kept lines), rest)

pub with_none : (r : PipeReader) → with_lines r [] ≡ r
with_none r = ap (λ lines. record r { event_lines = lines }) (append-nil r.event_lines)

pub add_line-keep :
    (r : PipeReader) (line : Text) (lines : List Text)
    → with_lines (add_line r line) lines ≡ with_lines r (keep line lines)
unfolding add_line keep
add_line-keep r [] lines = refl
add_line-keep r (c ∷ line) lines =
    ap (λ l. record r { event_lines = l }) (append_assoc r.event_lines ((c ∷ line) ∷ []) lines)

taken :
    (fuel : ℕ) (r : PipeReader) (s : Text)
    → ((r' : PipeReader) (s' : Text)
        → length s' < fuel
        → take_lines fuel r' s' ≡ result r' (parts s'))
    → length s < suc fuel
    → (o : Option ℕ) → Found s o
    → elim o [
      | none ↦ (r, s)
      | some n ↦ take_lines fuel (add_line r (strip_return (take n s))) (drop (suc n) s)
    ]
      ≡ result r (parts s)
unfolding after kept
taken fuel r s ih h none f = ap (λ x. (x, s)) (sym (with_none r)) ∙ sym (ap (result r) f)
taken fuel r s ih h (some n) f =
    let line = strip_return (take n s) in
    let more = parts (drop (suc n) s) in
    ih (add_line r line) (drop (suc n) s) (omega (arith, f.0, length-drop (suc n) s))
    ∙ (ap (λ x. (x, more.1)) (add_line-keep r line (kept more.0)) ∙ sym (ap (result r) f.1))

-- With enough fuel the loop adds the whole lines and leaves the rest.
pub take_lines-parts :
    (fuel : ℕ) (r : PipeReader) (s : Text)
    → length s < fuel
    → take_lines fuel r s ≡ result r (parts s)
unfolding take_lines
take_lines-parts zero r s h = absurd (omega arith)
take_lines-parts (suc fuel) r s h =
    taken fuel r s (take_lines-parts fuel) h (find newline s) (find-Found s)

-- What follows the lines and the rest of a text.
unfoldable pub joined : List Text × Text → Text → List Text × Text
joined (lines, rest) t = (lines ++ (parts (rest ++ t)).0, (parts (rest ++ t)).1)

push-joined :
    (c : ℕ) (p : List Text × Text) (t : Text)
    → (c == newline) ≡ false
    → push c (joined p t) ≡ joined (push c p) t
unfolding joined
push-joined c ([], rest) t e = sym (parts-other c (rest ++ t) e)
push-joined c (line ∷ lines, rest) t e = refl

-- The lines of two texts, one behind the other.
pub parts-append : (s t : Text) → parts (s ++ t) ≡ joined (parts s) t
unfolding joined
parts-append [] t = unfold parts in refl
parts-append (c ∷ s) t = elim (Bool-cases (c == newline)) [
  | inl e ↦
      parts-front c (s ++ t) e
      ∙ (ap end_line (parts-append s t) ∙ sym (ap (λ p. joined p t) (parts-front c s e)))
  | inr e ↦
      parts-other c (s ++ t) e
      ∙ (ap (push c) (parts-append s t)
          ∙ (push-joined c (parts s) t e ∙ sym (ap (λ p. joined p t) (parts-other c s e))))
]
