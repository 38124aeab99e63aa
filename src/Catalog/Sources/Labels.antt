-- ===== src/Catalog/Sources/Labels.antt =====
-- The selectors of backend/src/catalog.cpp that are made of a width, a height and a frame rate.
use insight_io.Base.{
  ℕ, ◌+◌, ◌≤◌, ◌≡◌, refl, sym, ap, ◌∙◌, inl, inr, Bool, true, false, not, ◌&&◌, Option, some, [],
  ◌∷◌, ◌++◌, arith, ◌==◌, if◌then◌else◌, Text, codes, text_eq, Bool-cases, ◌||◌,
}
use insight_io.Types.{ResolvedCaps}
use insight_io.Types.Decimal.{to_string, to_string-injective, AllDigits, to_string-AllDigits}
use insight_io.Uri.Split.{contains, split_at, split_at-append}
use insight_io.Catalog.Caps.{resolution_label, profile_of}
use insight_io.Catalog.Sources.Source.{profile_label}

contains-AllDigits : (c : ℕ) (t : Text) → b'9' + 1 ≤ c → AllDigits t → contains c t ≡ false
unfolding contains
contains-AllDigits c [] h d = refl
contains-AllDigits c (a ∷ t) h (lo, hi, d) = ground (arith, contains-AllDigits c t h d)

contains-append :
    (c : ℕ) (s t : Text) → contains c s ≡ false → contains c t ≡ false → contains c (s ++ t) ≡ false
unfolding contains
contains-append c [] t hs ht = ht
contains-append c (a ∷ s) t hs ht = ground (arith, contains-append c s t)

-- The sizes that have a name.
is_named : ℕ → ℕ → Bool
is_named w h =
    (w == 640 && h == 400)
    || (w == 640 && h == 480)
    || (w == 1280 && h == 720)
    || (w == 1280 && h == 800)
    || (w == 1920 && h == 1080)
    || (w == 3840 && h == 2160)

-- The size that a name stands for.
size_of : Text → ℕ × ℕ
size_of t =
    if text_eq t (codes "400p")
    then (640, 400)
    else if text_eq t (codes "480p")
    then (640, 480)
    else if text_eq t (codes "720p")
    then (1280, 720)
    else if text_eq t (codes "800p")
    then (1280, 800)
    else if text_eq t (codes "1080p")
    then (1920, 1080)
    else (3840, 2160)

label-named :
    (w h : ℕ)
    → is_named w h ≡ true
    → (size_of (resolution_label w h) ≡ (w, h))
      × (contains b'x' (resolution_label w h) ≡ false)
      × (contains b'_' (resolution_label w h) ≡ false)
unfolding is_named size_of resolution_label contains text_eq
label-named w h named = ground arith

label-other :
    (w h : ℕ) → is_named w h ≡ false → resolution_label w h ≡ to_string w ++ b'x' ∷ to_string h
unfolding is_named resolution_label
label-other w h other = ground arith

label-underscore : (w h : ℕ) → contains b'_' (resolution_label w h) ≡ false
unfolding contains
label-underscore w h = elim (Bool-cases (is_named w h)) [
  | inl named ↦ let (_, _, none_left) = label-named w h named in none_left
  | inr other ↦ rw (label-other w h other) (
      contains-append b'_' (to_string w) (b'x' ∷ to_string h)
        (contains-AllDigits b'_' (to_string w) (omega arith) (to_string-AllDigits w))
        (contains-AllDigits b'_' (to_string h) (omega arith) (to_string-AllDigits h)))
]

contains-middle : (c : ℕ) (s t : Text) → contains c (s ++ c ∷ t) ≡ true
unfolding contains
contains-middle c [] t = ground arith
contains-middle c (a ∷ s) t = ground (arith, contains-middle c s t)

label-x : (w h : ℕ) → contains b'x' (resolution_label w h) ≡ not (is_named w h)
label-x w h = elim (Bool-cases (is_named w h)) [
  | inl named ↦ let (_, plain, _) = label-named w h named in rw named plain
  | inr other ↦ rw (label-other w h other, other) (contains-middle b'x' (to_string w) (to_string h))
]

-- What stands before and behind a mark determines both parts, if the first has no mark.
pub split_unique :
    (c : ℕ) (a b s t : Text)
    → contains c a ≡ false
    → contains c b ≡ false
    → a ++ c ∷ s ≡ b ++ c ∷ t
    → (a ≡ b) × (s ≡ t)
split_unique c a b s t plain_a plain_b e =
    let halves : ◌≡◌ {A = Option (Text × Text)} (some (a, s)) (some (b, t)) =
      sym (split_at-append c a s plain_a) ∙ ap (split_at c) e ∙ split_at-append c b t plain_b in
    (cc, cc)

label-named_unique :
    (w h v g : ℕ)
    → is_named w h ≡ true
    → is_named v g ≡ true
    → resolution_label w h ≡ resolution_label v g
    → (w ≡ v) × (h ≡ g)
label-named_unique w h v g here there e =
    let (one, _, _) = label-named w h here in
    let (two, _, _) = label-named v g there in
    let sizes : ◌≡◌ {A = ℕ × ℕ} (w, h) (v, g) = sym one ∙ ap size_of e ∙ two in (cc, cc)

-- Different sizes have different labels.
pub resolution_label-injective :
    (w h v g : ℕ) → resolution_label w h ≡ resolution_label v g → (w ≡ v) × (h ≡ g)
resolution_label-injective w h v g e =
    let same : not (is_named w h) ≡ not (is_named v g) =
      sym (label-x w h) ∙ ap (contains b'x') e ∙ label-x v g in
    elim (Bool-cases (is_named w h)) [
      | inl named ↦ label-named_unique w h v g named (ground arith) e
      | inr other ↦
          let other_too : is_named v g ≡ false = ground arith in
          let plain = λ (n : ℕ).
            contains-AllDigits b'x' (to_string n) (omega arith) (to_string-AllDigits n) in
          let (widths, heights) =
            split_unique b'x' (to_string w) (to_string v) (to_string h) (to_string g) (plain w)
              (plain v) (sym (label-other w h other) ∙ e ∙ label-other v g other_too) in
          (to_string-injective w v widths, to_string-injective h g heights)
    ]

-- Different profiles have different labels.
pub profile_label-injective :
    (a b : ResolvedCaps) → profile_label a ≡ profile_label b → profile_of a ≡ profile_of b
profile_label-injective a b e =
    let (labels, rates) =
      split_unique b'_' (resolution_label a.width a.height) (resolution_label b.width b.height)
        (to_string a.fps) (to_string b.fps) (label-underscore a.width a.height)
        (label-underscore b.width b.height) e in
    let (widths, heights) = resolution_label-injective a.width a.height b.width b.height labels in
    let rate = to_string-injective a.fps b.fps rates in ground arith
