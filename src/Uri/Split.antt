-- ===== src/Uri/Split.antt =====
-- `find`, `substr` and `starts_with` on text.
use insight_io.Base.{
  ℕ, ◌≡◌, refl, inl, inr, Bool, false, ◌||◌, Option, none, some, [], ◌∷◌, ◌++◌, arith, ◌==◌,
  if◌then◌else◌, Text, Option-cases,
}
use mathlib.Core.Option

-- `text.find(c) != npos`
unfoldable pub contains : ℕ → Text → Bool
contains c [] = false
contains c (d ∷ s) = d == c || contains c s

-- What stands before and behind the first `c`.
unfoldable pub split_at : ℕ → Text → Option (Text × Text)
split_at c [] = none
split_at c (d ∷ s) =
    let rest = split_at c s in
    if d == c then some ([], s) else Option.map (λ p. (d ∷ p.0, p.1)) rest

-- The text behind a prefix, if the text starts with it.
unfoldable pub strip_prefix : Text → Text → Option Text
strip_prefix [] s = some s
strip_prefix (c ∷ p) [] = none
strip_prefix (c ∷ p) (d ∷ s) = let rest = strip_prefix p s in if c == d then rest else none

pub strip_prefix-append : (p s : Text) → strip_prefix p (p ++ s) ≡ some s
unfolding strip_prefix
strip_prefix-append [] s = refl
strip_prefix-append (c ∷ p) s = ground (arith, strip_prefix-append p s)

pub strip_prefix-some : (p t s : Text) → strip_prefix p t ≡ some s → t ≡ p ++ s
unfolding strip_prefix
strip_prefix-some [] t s h = cc
strip_prefix-some (c ∷ p) [] s h = cc
strip_prefix-some (c ∷ p) (d ∷ t) s h = ground (arith, strip_prefix-some p t s)

pub split_at-append :
    (c : ℕ) (s t : Text) → contains c s ≡ false → split_at c (s ++ c ∷ t) ≡ some (s, t)
unfolding split_at contains
split_at-append c [] t h = ground arith
split_at-append c (d ∷ s) t h = ground (arith, split_at-append c s t)

pub split_at-some :
    (c : ℕ) (t a b : Text) → split_at c t ≡ some (a, b) → (contains c a ≡ false) × (t ≡ a ++ c ∷ b)
unfolding split_at contains
split_at-some c [] a b h = cc
split_at-some c (d ∷ s) a b h = elim (Option-cases (split_at c s)) [
  | inl e ↦ ground arith
  | inr (p, e) ↦ let (plain, joined) = split_at-some c s p.0 p.1 e in ground arith
]

pub append_cancel : (s t u : Text) → s ++ t ≡ s ++ u → t ≡ u
append_cancel [] t u e = e
append_cancel (c ∷ s) t u e = append_cancel s t u cc
