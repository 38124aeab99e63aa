-- ===== src/Catalog/Unique.antt =====
-- `unique_public_name` of backend/src/catalog.cpp.
use insight_io.Base.{
  ℕ, zero, suc, ◌≤◌, ◌<◌, ◌≡◌, ◌≢◌, refl, ◌⊎◌, inl, inr, true, false, List, [], ◌∷◌, ◌++◌, arith,
  if◌then◌else◌, Text, codes, text_eq, text_eq→eq, is_empty, length, Bool-cases, ◌==◌, ==_iff,
}
use insight_io.Types.{one_of}
use insight_io.Uri.Split.{append_cancel}
use insight_io.Types.Decimal.{to_string, to_string-injective}

-- `base + "-" + std::to_string(suffix)`
abbrev pub candidate : Text → ℕ → Text
candidate base suffix = base ++ b'-' ∷ to_string suffix

-- The loop of `unique_public_name` from a suffix on, with a bound on its rounds; the set is the
-- list of its elements.
unfoldable pub try_suffixes : ℕ → Text → ℕ → List Text → Text × List Text
try_suffixes zero base suffix used = (candidate base suffix, candidate base suffix ∷ used)
try_suffixes (suc rounds) base suffix used =
    let rest = try_suffixes rounds base (suc suffix) used in
    if one_of (candidate base suffix) used
    then rest
    else (candidate base suffix, candidate base suffix ∷ used)

abbrev pub or_device : Text → Text
or_device base = if is_empty base then codes "device" else base

-- The name, and the set with it.
unfoldable pub unique_public_name : Text → List Text → Text × List Text
unique_public_name base used =
    let name = or_device base in
    let searched = try_suffixes (suc (length used)) name 1 used in
    if one_of name used then searched else (name, name ∷ used)

candidate-injective : (base : Text) (i j : ℕ) → candidate base i ≡ candidate base j → i ≡ j
candidate-injective base i j e =
    let tails : b'-' ∷ to_string i ≡ b'-' ∷ to_string j =
      append_cancel base (b'-' ∷ to_string i) (b'-' ∷ to_string j) e in
    to_string-injective i j cc

-- The set without one name.
without : Text → List Text → List Text
without t [] = []
without t (s ∷ ss) = let rest = without t ss in if text_eq t s then rest else s ∷ rest

length-without_le : (t : Text) (ss : List Text) → length (without t ss) ≤ length ss
unfolding without
length-without_le t [] = omega arith
length-without_le t (s ∷ ss) = ground (arith, length-without_le t ss)

length-without :
    (t : Text) (ss : List Text) → one_of t ss ≡ true → length (without t ss) < length ss
unfolding without one_of
length-without t [] h = cc
length-without t (s ∷ ss) h = ground (arith, length-without t ss, length-without_le t ss)

text_eq_trans : (t u s : Text) → t ≢ u → text_eq u s ≡ true → text_eq t s ≡ false
text_eq_trans t u s apart e = elim (Bool-cases (text_eq t s)) [
  | inl same ↦ let one = text_eq→eq t s same in let two = text_eq→eq u s e in absurd (apart cc)
  | inr other ↦ other
]

one_of-without : (t u : Text) (ss : List Text) → u ≢ t → one_of u (without t ss) ≡ one_of u ss
unfolding without one_of
one_of-without t u [] apart = refl
one_of-without t u (s ∷ ss) apart =
    ground (arith, one_of-without t u ss apart, text_eq_trans u t s apart)

-- The first suffix, from `i` on, whose name is free.
pub record FirstFree (base : Text) (i : ℕ) (used : List Text) (k : ℕ) : Type 0 where
  pub from : i ≤ k
  pub free : one_of (candidate base k) used ≡ false
  pub first : (j : ℕ) → i ≤ j → j < k → one_of (candidate base j) used ≡ true

taken_before :
    (base : Text) (i : ℕ) (used : List Text) (k : ℕ)
    → one_of (candidate base i) used ≡ true
    → FirstFree base (suc i) used k
    → FirstFree base i used k
taken_before base i used k taken found = record {
  from = let le = found.from in omega arith;
  free = found.free;
  first = λ j le lt. elim (Bool-cases (j == i)) [
    | inl same ↦ rw ((==_iff j i).0 same) taken
    | inr other ↦ found.first j (ground arith) lt
  ];
}

-- `left` holds the names of `used` that the loop can still meet.
try_suffixes-FirstFree :
    (rounds : ℕ) (base : Text) (i : ℕ) (used left : List Text)
    → ((j : ℕ) → i ≤ j → one_of (candidate base j) left ≡ one_of (candidate base j) used)
    → length left < rounds
    → (k : ℕ) × FirstFree base i used k
      × (try_suffixes rounds base i used ≡ (candidate base k, candidate base k ∷ used))
unfolding try_suffixes
try_suffixes-FirstFree zero base i used left same short = absurd (omega arith)
try_suffixes-FirstFree (suc rounds) base i used left same short =
    elim (Bool-cases (one_of (candidate base i) used)) [
      | inl taken ↦
          let smaller = length-without (candidate base i) left (rw (same i (omega arith)) taken) in
          let (k, found, e) =
            try_suffixes-FirstFree rounds base (suc i) used (without (candidate base i) left)
              (λ j le.
                rw
                  (one_of-without (candidate base i) (candidate base j) left
                    (λ q. let n = candidate-injective base j i q in absurd (omega arith)))
                  (same j (omega arith)))
              (omega arith) in
          (k, taken_before base i used k taken found, rw taken e)
      | inr free ↦ (
        i,
        record { from = omega arith; free = free; first = λ j le lt. absurd (omega arith) },
        rw free refl,
      )
    ]

-- `unique_public_name` ends with a name that the set did not have, and adds it: the base, or
-- `device` for an empty one, if it is free; otherwise the base with a dash and the least suffix from
-- 1 on whose name is free.
pub unique_public_name-least :
    (base : Text) (used : List Text)
    → let name = or_device base in
      ((one_of name used ≡ false) × (unique_public_name base used ≡ (name, name ∷ used)))
      ⊎ ((one_of name used ≡ true)
          × ((k : ℕ) × FirstFree name 1 used k
              × (unique_public_name base used ≡ (candidate name k, candidate name k ∷ used))))
unfolding unique_public_name
unique_public_name-least base used = elim (Bool-cases (one_of (or_device base) used)) [
  | inl taken ↦
      let found =
        try_suffixes-FirstFree (suc (length used)) (or_device base) 1 used used (λ j le. refl)
          (omega arith) in
      rw taken (inr (refl, found))
  | inr free ↦ rw free (inl (refl, refl))
]

-- The name is new, and the set grows by it.
pub unique_public_name-fresh :
    (base : Text) (used : List Text)
    → (one_of (unique_public_name base used).0 used ≡ false)
      × ((unique_public_name base used).1 ≡ (unique_public_name base used).0 ∷ used)
unique_public_name-fresh base used = elim (unique_public_name-least base used) [
  | inl (free, e) ↦ rw e (free, refl)
  | inr (taken, (k, found, e)) ↦ rw e (found.free, refl)
]

-- A free name is kept.
pub unique_public_name-kept :
    (base : Text) (used : List Text)
    → is_empty base ≡ false
    → one_of base used ≡ false
    → (unique_public_name base used).0 ≡ base
unfolding unique_public_name
unique_public_name-kept base used named free = rw (named, free) refl
