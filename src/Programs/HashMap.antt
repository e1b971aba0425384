-- ===== src/Programs/HashMap.antt =====
-- The standard library's hash map with numbers for keys, as an association list: what the programs use of it.
use trust_tee.Prelude.{
  ℕ, ◌≡◌, refl, Bool, true, false, ◌||◌, Option, none, some, List, [], ◌∷◌, ◌==◌, if◌then◌else◌,
  arith,
}

abbrev pub HashMap : Type 0 → Type 0
HashMap V = List (ℕ × V)

module _ {V : Type 0} where
  abbrev pub get : ℕ → HashMap V → Option V
  get k [] = none
  get k ((j, v) ∷ m) = if j == k then some v else get k m

  abbrev pub is_some : Option V → Bool
  is_some none = false
  is_some (some v) = true

  abbrev pub contains_key : ℕ → HashMap V → Bool
  contains_key k m = is_some (get k m)

  -- Replaces the value of a key that is there.
  abbrev pub insert : ℕ → V → HashMap V → HashMap V
  insert k v [] = (k, v) ∷ []
  insert k v ((j, w) ∷ m) = if j == k then (j, v) ∷ m else (j, w) ∷ insert k v m

  -- A write through `get_mut`, if the key is there.
  abbrev pub modify : ℕ → (V → V) → HashMap V → HashMap V
  modify k f [] = []
  modify k f ((j, v) ∷ m) = if j == k then (j, f v) ∷ m else (j, v) ∷ modify k f m

  abbrev pub updated : (V → V) → Option V → Option V
  updated f none = none
  updated f (some v) = some (f v)

  pub get-insert :
      (k j : ℕ) (v : V) (m : HashMap V)
      → get j (insert k v m) ≡ (if k == j then some v else get j m)
  get-insert k j v [] = refl
  get-insert k j v ((i, w) ∷ m) = ground (arith, get-insert k j v m)

  pub get-modify :
      (k j : ℕ) (f : V → V) (m : HashMap V)
      → get j (modify k f m) ≡ (if k == j then updated f (get j m) else get j m)
  get-modify k j f [] = ground arith
  get-modify k j f ((i, w) ∷ m) = ground (arith, get-modify k j f m)

  is_some-updated : (f : V → V) (o : Option V) → is_some (updated f o) ≡ is_some o
  is_some-updated f none = refl
  is_some-updated f (some v) = refl

  pub contains_key-modify :
      (k j : ℕ) (f : V → V) (m : HashMap V) → contains_key j (modify k f m) ≡ contains_key j m
  contains_key-modify k j f m = ground (arith, get-modify k j f m, is_some-updated f (get j m))

  pub contains_key-insert :
      (k j : ℕ) (v : V) (m : HashMap V)
      → contains_key j (insert k v m) ≡ (k == j || contains_key j m)
  contains_key-insert k j v m = ground (arith, get-insert k j v m)

  pub get-none : (k : ℕ) (m : HashMap V) → (contains_key k m ≡ true → ⊥) → get k m ≡ none
  get-none k m h = ground (arith, h)
