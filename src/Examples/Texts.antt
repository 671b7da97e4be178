-- ===== src/Examples/Texts.antt =====
-- A small JSON library whose values are their own texts.
use package.text.Mathlib.Text.{◌==◌ as str_eq}
use package.text.Mathlib.TextEquality.{eq_iff, Char-path}
use Prim.Native.String.{String}
use my_iperf.Prelude.{
  ℕ, zero, suc, ◌≤◌, ◌≡◌, refl, sym, ap, ◌∙◌, subst, ◌++◌, Text, text, text_eq, text_eq→≡,
  text_eq_refl, Bool, true, false, [], ◌∷◌, length, take, drop, length-append, length-drop,
  take-append_le, drop-append_le, take-length, drop-length, Option, none, some, arith,
  if◌then◌else◌, Bool-cases, inl, inr,
}
use my_iperf.Prelude.Int.{ℤ, pos, negsuc}
use my_iperf.Result.{Result, ok, throw}
use my_iperf.Json.{JsonLib}
use my_iperf.StatsJson.{TextLib}
use my_iperf.Examples.Inputs.{ticks}

abbrev pub head : Text → ℕ
head [] = 0
head (n ∷ t) = n

-- An object is a list of keys and values, each behind its length.
abbrev pub find : ℕ → Text → Text → Option Text
find zero key j = none
find (suc n) key [] = none
find (suc n) key (size ∷ j) =
    let value = drop size j in
    let rest = find n key (drop (head value) (drop 1 value)) in
    if text_eq (take size j) key then some (take (head value) (drop 1 value)) else rest

abbrev pub member : String → Text → Option Text
member k j = find (length j) (text k) j

abbrev pub with_member : String → Text → Text → Text
with_member k v root = length (text k) ∷ (text k ++ (length v ∷ (v ++ root)))

length-drop_le : (n : ℕ) (j : Text) → length (drop n j) ≤ length j
length-drop_le n j = let e = length-drop n j in omega arith

find_enough : (n m : ℕ) (key j : Text) → length j ≤ n → length j ≤ m → find n key j ≡ find m key j
find_enough zero zero key [] h k = refl
find_enough zero (suc m) key [] h k = refl
find_enough (suc n) zero key [] h k = refl
find_enough (suc n) (suc m) key [] h k = refl
find_enough zero m key (size ∷ j) h k = absurd (omega arith)
find_enough (suc n) zero key (size ∷ j) h k = absurd (omega arith)
find_enough (suc n) (suc m) key (size ∷ j) h k =
    let value = drop size j in
    let root = drop (head value) (drop 1 value) in
    let a = length-drop_le size j in
    let b = length-drop_le 1 value in
    let c = length-drop_le (head value) (drop 1 value) in
    ap (λ r. if text_eq (take size j) key then some (take (head value) (drop 1 value)) else r)
      (find_enough n m key root (omega arith) (omega arith))

take_front : (a b : Text) → take (length a) (a ++ b) ≡ a
take_front a b = take-append_le (length a) a b (omega arith) ∙ take-length a

drop_front : (a b : Text) → drop (length a) (a ++ b) ≡ b
drop_front a b = drop-append_le (length a) a b (omega arith) ∙ ap (λ t. t ++ b) (drop-length a)

text_injective : (j k : String) → text j ≡ text k → j ≡ k
text_injective String.[] String.[] h = refl
text_injective String.[] (String.◌∷◌ d k) h = cc
text_injective (String.◌∷◌ c j) String.[] h = cc
text_injective (String.◌∷◌ c j) (String.◌∷◌ d k) h =
    let e : c ≡ d = Char-path c d (cc h) in let e' : j ≡ k = text_injective j k (cc h) in cc

-- Names are equal where their texts are.
text_eq-text : (j k : String) → text_eq (text j) (text k) ≡ str_eq j k
text_eq-text j k = elim (Bool-cases (text_eq (text j) (text k))) [
  | inl e ↦ e ∙ sym ((eq_iff j k).1 (text_injective j k (text_eq→≡ _ _ e)))
  | inr e ↦ elim (Bool-cases (str_eq j k)) [
    | inl e' ↦
        let same = (eq_iff j k).0 e' in
        let yes = text_eq_refl (text k) in
        let here = subst (λ x. text_eq (text x) (text k) ≡ true) (sym same) yes in cc
    | inr e' ↦ e ∙ sym e'
  ]
]

choose : ℕ → Text → Text → Text → Option Text
choose n key name value =
    if text_eq name key
    then some (take (head value) (drop 1 value))
    else find n key (drop (head value) (drop 1 value))

find_front :
    (key name v root : Text)
    → find
        (suc (length (name ++ (length v ∷ (v ++ root)))))
        key
        (length name ∷ (name ++ (length v ∷ (v ++ root))))
      ≡ (if text_eq name key then some v else find (length root) key root)
unfolding choose
find_front key name v root =
    let after : Text = length v ∷ (v ++ root) in
    let n = length (name ++ after) in
    let l1 = length-append name after in
    let l2 = length-append v root in
    ap (λ t. choose n key t (drop (length name) (name ++ after))) (take_front name after)
    ∙ ap (λ t. choose n key name t) (drop_front name after)
    ∙ ap (λ t. if text_eq name key then some t else find n key (drop (length v) (v ++ root)))
        (take_front v root)
    ∙ ap (λ t. if text_eq name key then some v else find n key t) (drop_front v root)
    ∙ ap (λ t. if text_eq name key then some v else t)
        (find_enough n (length root) key root (omega arith) (omega arith))

pub member-with_member :
    (k j : String) (v root : Text)
    → member k (with_member j v root) ≡ (if str_eq j k then some v else member k root)
member-with_member k j v root =
    find_front (text k) (text j) v root
    ∙ ap (λ b. if b then some v else member k root) (text_eq-text j k)

abbrev pub of_int : ℤ → Text
of_int (pos n) = 0 ∷ n ∷ []
of_int (negsuc n) = 1 ∷ n ∷ []

abbrev pub get_int : Text → Result ℤ
get_int (zero ∷ n ∷ []) = ok (pos n)
get_int (suc m ∷ n ∷ []) = ok (negsuc n)
get_int t = throw (text "type must be number")

pub get_int-of_int : (n : ℤ) → get_int (of_int n) ≡ ok n
get_int-of_int (pos n) = refl
get_int-of_int (negsuc n) = refl

abbrev pub get_bool : Text → Result Bool
get_bool (zero ∷ []) = ok false
get_bool (suc n ∷ []) = ok true
get_bool t = throw (text "type must be boolean")

abbrev pub of_bool : Bool → Text
of_bool b = (if b then 1 else 0) ∷ []

pub get_bool-of_bool : (b : Bool) → get_bool (of_bool b) ≡ ok b
get_bool-of_bool true = refl
get_bool-of_bool false = refl

abbrev pub get_count : Text → Result ℕ
get_count (n ∷ []) = ok n
get_count t = throw (text "type must be number")

abbrev pub texts_lib : JsonLib
texts_lib = record {
  Json = Text;
  object = [];
  member = member;
  with_member = with_member;
  of_int = of_int;
  of_text = λ t. t;
  of_bool = of_bool;
  get_int = get_int;
  get_text = λ t. ok t;
  get_bool = get_bool;
  member-object = λ k. refl;
  member-with_member = member-with_member;
  get_int-of_int = λ n h. get_int-of_int n;
  get_text-of_text = λ t. refl;
  get_bool-of_bool = get_bool-of_bool;
}

abbrev pub texts : TextLib ticks texts_lib
texts = record {
  of_count = λ n. n ∷ [];
  of_real = λ n. n ∷ [];
  get_count = get_count;
  get_real = get_count;
  dump = λ t. t;
  parse = λ t. ok t;
  IsFinite = λ x. Unit {0};
  IsPlain = λ j. Unit {0};
  get_count-of_count = λ n. refl;
  get_real-of_real = λ x h. refl;
  object-IsPlain = tt;
  of_count-IsPlain = λ n. tt;
  of_real-IsPlain = λ x h. tt;
  with_member-IsPlain = λ k v root h g. tt;
  parse-dump = λ j h. refl;
}
