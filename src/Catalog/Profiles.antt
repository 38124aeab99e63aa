-- ===== src/Catalog/Profiles.antt =====
-- The map of `choose_video_caps_by_profile` of backend/src/catalog.cpp, from the width, the height
-- and the frame rate, as the list of its entries in the order of their keys.
use insight_io.Base.{
  ℕ, ◌≡◌, refl, inl, inr, Bool-cases, Bool, true, false, ◌&&◌, ◌||◌, Option, none, some, List, [],
  ◌∷◌, arith, ltb, ◌==◌, if◌then◌else◌,
}

pub record Profile : Type 0 where
  pub width : ℕ
  pub height : ℕ
  pub fps : ℕ

abbrev pub profile_eq : Profile → Profile → Bool
profile_eq p q = p.width == q.width && p.height == q.height && p.fps == q.fps

-- `<` on tuples.
abbrev pub profile_lt : Profile → Profile → Bool
profile_lt p q =
    ltb p.width q.width
    || (p.width == q.width && (ltb p.height q.height || (p.height == q.height && ltb p.fps q.fps)))

pub profile_eq→eq : (p q : Profile) → profile_eq p q ≡ true → p ≡ q
profile_eq→eq p q h = ground arith

pub profile_eq_refl : (p : Profile) → profile_eq p p ≡ true
profile_eq_refl p = ground arith

pub eq→profile_eq : (p q : Profile) → p ≡ q → profile_eq p q ≡ true
eq→profile_eq p q e = rw e (profile_eq_refl q)

profile_lt_total :
    (p q : Profile) → profile_eq p q ≡ false → profile_lt p q ≡ false → profile_lt q p ≡ true
profile_lt_total p q other higher = ground arith

module _ {ℓ} {V : Type ℓ} where
  -- `find`
  unfoldable pub find : Profile → List (Profile × V) → Option V
  find p [] = none
  find p ((q, v) ∷ m) = let rest = find p m in if profile_eq q p then some v else rest

  -- `m[p] = v`
  unfoldable pub assign : Profile → V → List (Profile × V) → List (Profile × V)
  assign p v [] = (p, v) ∷ []
  assign p v ((q, w) ∷ m) =
      let rest = assign p v m in
      if profile_eq p q
      then (p, v) ∷ m
      else if profile_lt p q
      then (p, v) ∷ (q, w) ∷ m
      else (q, w) ∷ rest

  pub find-assign :
      (p q : Profile) (v : V) (m : List (Profile × V))
      → find q (assign p v m) ≡ (if profile_eq p q then some v else find q m)
  unfolding find assign
  find-assign p q v [] = refl
  find-assign p q v ((r, w) ∷ m) = ground (arith, find-assign p q v m)

  -- Every key is below those that follow it.
  abbrev pub Below : Profile → List (Profile × V) → Type 0
  Below p [] = Unit {0}
  Below p ((q, w) ∷ m) = (profile_lt p q ≡ true) × Below p m

  abbrev pub Ordered : List (Profile × V) → Type 0
  Ordered [] = Unit {0}
  Ordered ((p, v) ∷ m) = Below p m × Ordered m

  Below-trans :
      (p q : Profile) (m : List (Profile × V)) → profile_lt p q ≡ true → Below q m → Below p m
  Below-trans p q [] h below = tt
  Below-trans p q ((r, w) ∷ m) h (first, below) = (ground arith, Below-trans p q m h below)

  Below-assign :
      (p q : Profile) (v : V) (m : List (Profile × V))
      → profile_lt q p ≡ true
      → Below q m
      → Below q (assign p v m)
  unfolding assign
  Below-assign p q v [] h below = (h, tt)
  Below-assign p q v ((r, w) ∷ m) h (first, below) = ground (arith, Below-assign p q v m h below)

  pub assign-Ordered :
      (p : Profile) (v : V) (m : List (Profile × V)) → Ordered m → Ordered (assign p v m)
  unfolding assign
  assign-Ordered p v [] h = (tt, tt)
  assign-Ordered p v ((q, w) ∷ m) (below, ordered) = elim (Bool-cases (profile_eq p q)) [
    | inl same ↦ rw same (rw (profile_eq→eq p q same) below, ordered)
    | inr other ↦ elim (Bool-cases (profile_lt p q)) [
      | inl lower ↦ rw (other, lower) ((lower, Below-trans p q m lower below), (below, ordered))
      | inr higher ↦
          rw (other, higher)
            (
              Below-assign p q v m (profile_lt_total p q other higher) below,
              assign-Ordered p v m ordered,
            )
    ]
  ]
