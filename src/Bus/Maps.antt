-- ===== src/Bus/Maps.antt =====
-- `std::map` with numbers for keys, as a list in the order of the keys; and functions as stores.
use my_iperf.Prelude.{
  ℕ, ◌≡◌, refl, List, [], ◌∷◌, Option, none, some, arith, ltb, ◌==◌, if◌then◌else◌,
}

abbrev pub Map : Type 0 → Type 0
Map A = List (ℕ × A)

abbrev pub update {ℓ} : {A : Type ℓ} → (ℕ → A) → ℕ → A → ℕ → A
update f k v j = if k == j then v else f j

module _ {A : Type 0} where
  -- `map.find(key)`.
  unfoldable pub lookup : ℕ → Map A → Option A
  lookup key ((k, value) ∷ rest) = if k == key then some value else lookup key rest
  lookup key [] = none

  -- `map[key] = value`.
  unfoldable pub insert : ℕ → A → Map A → Map A
  insert key value ((k, old) ∷ rest) =
      let further = insert key value rest in
      if k == key
      then (key, value) ∷ rest
      else if ltb key k
      then (key, value) ∷ (k, old) ∷ rest
      else (k, old) ∷ further
  insert key value [] = (key, value) ∷ []

  unfoldable pub erase : ℕ → Map A → Map A
  erase key ((k, value) ∷ rest) =
      let further = erase key rest in if k == key then further else (k, value) ∷ further
  erase key [] = []

  pub lookup-insert :
      (key other : ℕ) (value : A) (map : Map A)
      → lookup other (insert key value map)
        ≡ (if key == other then some value else lookup other map)
  unfolding lookup insert
  lookup-insert key other value ((k, old) ∷ rest) =
      ground (arith, lookup-insert key other value rest)
  lookup-insert key other value [] = refl

  pub lookup-erase :
      (key other : ℕ) (map : Map A)
      → lookup other (erase key map) ≡ (if key == other then none else lookup other map)
  unfolding lookup erase
  lookup-erase key other ((k, old) ∷ rest) = ground (arith, lookup-erase key other rest)
  lookup-erase key other [] = ground arith
