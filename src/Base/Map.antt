-- ===== src/Base/Map.antt =====
-- `std::map` from numbers, as the list of its entries in the order of their keys.
use Prim.Native.Nat.{ℕ}
use mathlib.Core.Path.{◌≡◌, refl}
use mathlib.Core.Logic.{◌⊎◌}
use mathlib.Core.Bool.{Bool, true, false}
use mathlib.Core.Option.{Option, none, some}
use mathlib.Core.List.{List, [], ◌∷◌}
use native.Mathlib.Omega.{arith}
use insight_io.Base.Tests.{◌==◌, ltb, if◌then◌else◌, ==_iff}

module _ {ℓ} {V : Type ℓ} where
  -- `find`
  unfoldable pub lookup : ℕ → List (ℕ × V) → Option V
  lookup key [] = none
  lookup key ((k, v) ∷ rest) = if k == key then some v else lookup key rest

  -- `m[k] = v`
  unfoldable pub insert : ℕ → V → List (ℕ × V) → List (ℕ × V)
  insert k v [] = (k, v) ∷ []
  insert k v ((j, w) ∷ m) =
      if k == j then (k, v) ∷ m else if ltb k j then (k, v) ∷ (j, w) ∷ m else (j, w) ∷ insert k v m

  unfoldable pub erase : ℕ → List (ℕ × V) → List (ℕ × V)
  erase k [] = []
  erase k ((j, v) ∷ m) = let rest = erase k m in if j == k then rest else (j, v) ∷ rest

  -- `m.begin()->first`
  unfoldable pub first_key : List (ℕ × V) → Option ℕ
  first_key [] = none
  first_key ((k, v) ∷ m) = some k

  pub lookup-insert :
      (new key : ℕ) (v : V) (m : List (ℕ × V))
      → lookup key (insert new v m) ≡ (if new == key then some v else lookup key m)
  unfolding lookup insert
  lookup-insert new key v [] = refl
  lookup-insert new key v ((k, w) ∷ rest) = ground (arith, lookup-insert new key v rest)

  pub lookup-erase :
      (k j : ℕ) (m : List (ℕ × V)) → lookup j (erase k m) ≡ (if k == j then none else lookup j m)
  unfolding lookup erase
  lookup-erase k j [] = ground arith
  lookup-erase k j ((i, v) ∷ m) = ground (arith, lookup-erase k j m)

  pub insert-hit : (k : ℕ) (v : V) (m : List (ℕ × V)) → lookup k (insert k v m) ≡ some v
  insert-hit k v m = ground (arith, lookup-insert k k v m)

  pub insert-hit_at :
      (k j : ℕ) (v : V) (m : List (ℕ × V)) → (k == j) ≡ true → lookup j (insert k v m) ≡ some v
  insert-hit_at k j v m same = ground (arith, lookup-insert k j v m)

  pub insert-miss :
      (k j : ℕ) (v : V) (m : List (ℕ × V)) → (k == j) ≡ false → lookup j (insert k v m) ≡ lookup j m
  insert-miss k j v m other = ground (arith, lookup-insert k j v m)

  -- What a map finds after an insertion is the new value, or what it found before.
  pub insert-split :
      (k j : ℕ) (v w : V) (m : List (ℕ × V))
      → lookup j (insert k v m) ≡ some w
      → ((k ≡ j) × (v ≡ w)) ⊎ (((k == j) ≡ false) × (lookup j m ≡ some w))
  insert-split k j v w m h = ground (arith, lookup-insert k j v m)

  pub erase-hit : (k : ℕ) (m : List (ℕ × V)) → lookup k (erase k m) ≡ none
  erase-hit k m = ground (arith, lookup-erase k k m)

  pub erase-miss :
      (k j : ℕ) (m : List (ℕ × V)) → (k == j) ≡ false → lookup j (erase k m) ≡ lookup j m
  erase-miss k j m other = ground (arith, lookup-erase k j m)

  pub erase-split :
      (k j : ℕ) (w : V) (m : List (ℕ × V))
      → lookup j (erase k m) ≡ some w
      → ((k == j) ≡ false) × (lookup j m ≡ some w)
  erase-split k j w m h = ground (arith, lookup-erase k j m)

  abbrev pub has : ℕ → List (ℕ × V) → Bool
  has k m = elim (lookup k m) [ none ↦ false | some v ↦ true ]

  -- A key that stays after the removal of another.
  pub has-erase :
      (k j : ℕ) (m : List (ℕ × V)) → (k == j) ≡ false → has j m ≡ true → has j (erase k m) ≡ true
  has-erase k j m other h = rw (erase-miss k j m other, has) h

  pub has-insert :
      (k j : ℕ) (v : V) (m : List (ℕ × V)) → has j m ≡ true → has j (insert k v m) ≡ true
  has-insert k j v m h = ground (arith, lookup-insert k j v m)

  pub has-insert_self : (k : ℕ) (v : V) (m : List (ℕ × V)) → has k (insert k v m) ≡ true
  has-insert_self k v m = ground (arith, insert-hit k v m)

  pub has-insert_split :
      (k j : ℕ) (v : V) (m : List (ℕ × V))
      → has j (insert k v m) ≡ true
      → ((k == j) ≡ true) ⊎ (has j m ≡ true)
  has-insert_split k j v m h = ground (arith, lookup-insert k j v m)

  pub has-erase_split :
      (k j : ℕ) (m : List (ℕ × V))
      → has j (erase k m) ≡ true
      → ((k == j) ≡ false) × (has j m ≡ true)
  has-erase_split k j m h = ground (arith, lookup-erase k j m)

  -- Equal keys have one value.
  pub lookup_unique :
      (k j : ℕ) (v w : V) (m : List (ℕ × V))
      → (k == j) ≡ true
      → lookup k m ≡ some v
      → lookup j m ≡ some w
      → w ≡ v
  lookup_unique k j v w m same hv hw = let key = (==_iff k j).0 same in cc

  pub has-first_key : (m : List (ℕ × V)) (k : ℕ) → first_key m ≡ some k → has k m ≡ true
  unfolding first_key lookup
  has-first_key [] k e = cc
  has-first_key ((j, v) ∷ m) k e = ground arith

-- A change of every value.
unfoldable pub map_values {ℓ} : {V : Type ℓ} → (V → V) → List (ℕ × V) → List (ℕ × V)
map_values f [] = []
map_values f ((k, v) ∷ m) = (k, f v) ∷ map_values f m

pub lookup-map_values {ℓ} :
    {V : Type ℓ} (f : V → V) (k : ℕ) (m : List (ℕ × V))
    → lookup k (map_values f m) ≡ elim (lookup k m) [ none ↦ none | some v ↦ some (f v) ]
unfolding lookup map_values
lookup-map_values f k [] = refl
lookup-map_values f k ((j, v) ∷ m) = ground (arith, lookup-map_values f k m)

pub ruleset map_laws = (lookup-insert, lookup-erase)
