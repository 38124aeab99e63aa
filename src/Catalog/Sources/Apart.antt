-- ===== src/Catalog/Sources/Apart.antt =====
-- Lists of selectors that share no text, for the sources of backend/src/catalog.cpp.
use insight_io.Base.{
  ◌≡◌, refl, inl, inr, true, false, List, [], ◌∷◌, ◌++◌, arith, Text, text_eq, text_eq→eq,
  text_eq_refl, Bool-cases,
}
use insight_io.Types.{one_of}

-- No text comes twice.
abbrev pub AllDistinct : List Text → Type 0
AllDistinct [] = Unit {0}
AllDistinct (t ∷ ts) = (one_of t ts ≡ false) × AllDistinct ts

-- No text of the first list is in the second.
abbrev pub Apart : List Text → List Text → Type 0
Apart [] us = Unit {0}
Apart (t ∷ ts) us = (one_of t us ≡ false) × Apart ts us

one_of-append :
    (t : Text) (ts us : List Text)
    → one_of t ts ≡ false
    → one_of t us ≡ false
    → one_of t (ts ++ us) ≡ false
unfolding one_of
one_of-append t [] us a b = b
one_of-append t (s ∷ ts) us a b = ground (arith, one_of-append t ts us)

pub AllDistinct-append :
    (ts us : List Text) → AllDistinct ts → AllDistinct us → Apart ts us → AllDistinct (ts ++ us)
AllDistinct-append [] us a b c = b
AllDistinct-append (t ∷ ts) us (new, a) b (apart, c) =
    (one_of-append t ts us new apart, AllDistinct-append ts us a b c)

pub Apart-empty : (ts : List Text) → Apart ts []
unfolding one_of
Apart-empty [] = tt
Apart-empty (t ∷ ts) = (refl, Apart-empty ts)

pub Apart-append : (ts us vs : List Text) → Apart ts us → Apart ts vs → Apart ts (us ++ vs)
Apart-append [] us vs a b = tt
Apart-append (t ∷ ts) us vs (a, c) (b, d) = (one_of-append t us vs a b, Apart-append ts us vs c d)

-- Texts that begin with a prefix.
abbrev pub Prefixed : Text → List Text → Type 0
Prefixed p [] = Unit {0}
Prefixed p (t ∷ ts) = ((s : Text) × (t ≡ p ++ s)) × Prefixed p ts

module _ (p q : Text) (clash : (s u : Text) → text_eq (p ++ s) (q ++ u) ≡ false) where
  one_of-Prefixed : (s : Text) (us : List Text) → Prefixed q us → one_of (p ++ s) us ≡ false
  unfolding one_of
  one_of-Prefixed s [] h = refl
  one_of-Prefixed s (u ∷ us) ((v, e), h) =
      let other : text_eq (p ++ s) u ≡ false = rw e (clash s v) in rw other (one_of-Prefixed s us h)

  pub Apart-Prefixed : (ts us : List Text) → Prefixed p ts → Prefixed q us → Apart ts us
  Apart-Prefixed [] us a b = tt
  Apart-Prefixed (t ∷ ts) us ((s, e), a) b =
      (rw e (one_of-Prefixed s us b), Apart-Prefixed ts us a b)

pub Prefixed-append :
    (p : Text) (ts us : List Text) → Prefixed p ts → Prefixed p us → Prefixed p (ts ++ us)
Prefixed-append p [] us a b = b
Prefixed-append p (t ∷ ts) us (e, a) b = (e, Prefixed-append p ts us a b)

pub text_eq_sym : (s t : Text) → text_eq s t ≡ false → text_eq t s ≡ false
text_eq_sym s t h = elim (Bool-cases (text_eq t s)) [
  | inl same ↦
      let e = text_eq→eq t s same in
      let again : text_eq s t ≡ true = rw e (text_eq_refl s) in absurd cc
  | inr other ↦ other
]

-- Names that avoid a set with one more name avoid the set, and that name is none of them.
pub Apart-cons :
    (name : Text) (ns used : List Text)
    → Apart ns (name ∷ used)
    → Apart ns used × (one_of name ns ≡ false)
unfolding one_of
Apart-cons name [] used h = (tt, refl)
Apart-cons name (n ∷ ns) used (h, rest) =
    let (apart, new) = Apart-cons name ns used rest in
    let other : text_eq n name ≡ false = ground arith in
    ((ground arith, apart), rw (text_eq_sym n name other) new)

pub Apart-uncons :
    (name : Text) (ns used : List Text)
    → one_of name ns ≡ false
    → Apart ns used
    → Apart ns (name ∷ used)
unfolding one_of
Apart-uncons name [] used new apart = tt
Apart-uncons name (n ∷ ns) used new (h, apart) =
    let other : (text_eq name n ≡ false) × (one_of name ns ≡ false) = ground arith in
    (rw (text_eq_sym name n other.0) h, Apart-uncons name ns used other.1 apart)
