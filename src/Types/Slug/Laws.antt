-- ===== src/Types/Slug/Laws.antt =====
-- What `slugify` of types.cpp returns.
use mathlib.Core.List.{append_assoc, append-nil}
use insight_io.Base.{
  ℕ, ◌≡◌, refl, sym, ◌∙◌, ◌⊎◌, inl, inr, Bool, true, false, not, ◌&&◌, ◌||◌, [], ◌∷◌, ◌++◌, arith,
  leb, ◌==◌, if◌then◌else◌, Text, is_empty, Bool-cases,
}
use insight_io.Types.Slug.{is_alnum, to_lower, pop_dash, slug_loop, slugify}

-- The rest of a slug after a letter: the letters in lower case, and a dash before a letter that
-- other characters precede.
slug_rest : Bool → Text → Text
slug_rest pending [] = []
slug_rest pending (c ∷ s) =
    let letter = to_lower c ∷ slug_rest false s in
    let skip = slug_rest true s in
    if is_alnum c then (if pending then b'-' ∷ letter else letter) else skip

-- A slug starts at the first letter or digit.
pub slug_of : Text → Text
unfolding slug_rest
slug_of [] = []
slug_of (c ∷ s) =
    let rest = slug_of s in if is_alnum c then to_lower c ∷ slug_rest false s else rest

pop_dash-append :
    (r : Text) (c : ℕ) → pop_dash (r ++ c ∷ []) ≡ (if c == b'-' then r else r ++ c ∷ [])
unfolding pop_dash
pop_dash-append [] c = refl
pop_dash-append (a ∷ []) c = ground arith
pop_dash-append (a ∷ b ∷ r) c = ground (arith, pop_dash-append (b ∷ r) c)

letter_not_dash : (c : ℕ) → is_alnum c ≡ true → (to_lower c == b'-') ≡ false
unfolding is_alnum to_lower
letter_not_dash c h = ground arith

not_empty-append : (r : Text) (c : ℕ) → is_empty (r ++ c ∷ []) ≡ false
not_empty-append [] c = refl
not_empty-append (a ∷ r) c = refl

pop_dash-letter :
    (r : Text) (c : ℕ) → is_alnum c ≡ true → pop_dash (r ++ to_lower c ∷ []) ≡ r ++ to_lower c ∷ []
pop_dash-letter r c h = rw (pop_dash-append r (to_lower c), letter_not_dash c h)

-- The loop after a letter, and after a dash.
slug_loop-rest :
    (s q : Text)
    → is_empty q ≡ false
    → pop_dash q ≡ q
    → (pop_dash (slug_loop s q false) ≡ q ++ slug_rest false s)
      × (pop_dash (slug_loop s (q ++ b'-' ∷ []) true) ≡ q ++ slug_rest true s)
unfolding slug_loop slug_rest
slug_loop-rest [] q full stays =
    (stays ∙ sym (append-nil q), pop_dash-append q b'-' ∙ sym (append-nil q))
slug_loop-rest (d ∷ s) q full stays = elim (Bool-cases (is_alnum d)) [
  | inl letter ↦
      let l = to_lower d in
      let (after, _) =
        slug_loop-rest s (q ++ l ∷ []) (not_empty-append q l) (pop_dash-letter q d letter) in
      let dashed = q ++ b'-' ∷ [] in
      let (after_dash, _) =
        slug_loop-rest s (dashed ++ l ∷ []) (not_empty-append dashed l)
          (pop_dash-letter dashed d letter) in
      rw letter (
        after ∙ append_assoc q (l ∷ []) (slug_rest false s),
        after_dash
            ∙ append_assoc dashed (l ∷ []) (slug_rest false s)
            ∙ append_assoc q (b'-' ∷ []) (l ∷ slug_rest false s),
      )
  | inr other ↦
      let (_, after_dash) = slug_loop-rest s q full stays in
      rw (other, full) (after_dash, after_dash)
]

slug_loop-start : (s : Text) → pop_dash (slug_loop s [] false) ≡ slug_of s
unfolding slug_loop slug_of pop_dash
slug_loop-start [] = refl
slug_loop-start (c ∷ s) = elim (Bool-cases (is_alnum c)) [
  | inl letter ↦ rw letter (slug_loop-rest s (to_lower c ∷ []) refl (pop_dash-letter [] c letter)).0
  | inr other ↦ rw other (slug_loop-start s)
]

-- `slugify` keeps the letters and digits, in lower case, and puts one dash wherever other
-- characters stood between two of them.
pub slugify-eq : (s : Text) → slugify s ≡ slug_of s
unfolding slugify
slugify-eq s = slug_loop-start s

-- A lower-case letter or a digit.
abbrev pub is_slug_char : ℕ → Bool
is_slug_char c = (leb b'0' c && leb c b'9') || (leb b'a' c && leb c b'z')

-- The rest of a slug, with `dashed` if the character before was a dash, or there was none.
unfoldable pub is_slug_from : Bool → Text → Bool
is_slug_from dashed [] = not dashed
is_slug_from dashed (c ∷ s) =
    let letter = is_slug_from false s in
    let dash = is_slug_from true s in
    if is_slug_char c then letter else (c == b'-') && not dashed && dash

-- Lower-case letters, digits and single dashes between them; at least one letter or digit.
abbrev pub IsSlug : Text → Type 0
IsSlug s = is_slug_from true s ≡ true

to_lower_char : (c : ℕ) → is_alnum c ≡ true → is_slug_char (to_lower c) ≡ true
unfolding is_alnum to_lower
to_lower_char c h = ground arith

slug_rest-ok : (pending : Bool) (s : Text) → is_slug_from false (slug_rest pending s) ≡ true
unfolding slug_rest is_slug_from
slug_rest-ok pending [] = refl
slug_rest-ok true (c ∷ s) =
    ground (arith, to_lower_char c, slug_rest-ok false s, slug_rest-ok true s)
slug_rest-ok false (c ∷ s) =
    ground (arith, to_lower_char c, slug_rest-ok false s, slug_rest-ok true s)

slug_of-IsSlug : (s : Text) → (slug_of s ≡ []) ⊎ IsSlug (slug_of s)
unfolding slug_of is_slug_from
slug_of-IsSlug [] = inl refl
slug_of-IsSlug (c ∷ s) = ground (arith, to_lower_char c, slug_rest-ok false s, slug_of-IsSlug s)

slug_char_kept : (c : ℕ) → is_slug_char c ≡ true → (is_alnum c ≡ true) × (to_lower c ≡ c)
unfolding is_alnum to_lower
slug_char_kept c h = ground arith

dash_not_letter : (c : ℕ) → (c == b'-') ≡ true → is_alnum c ≡ false
unfolding is_alnum
dash_not_letter c h = ground arith

slug_rest_fixed :
    (dashed : Bool) (s : Text)
    → is_slug_from dashed s ≡ true
    → slug_rest dashed s ≡ (if dashed then b'-' ∷ s else s)
unfolding slug_rest is_slug_from
slug_rest_fixed true [] h = cc
slug_rest_fixed false [] h = refl
slug_rest_fixed true (c ∷ s) h = ground (arith, slug_char_kept c, slug_rest_fixed false s)
slug_rest_fixed false (c ∷ s) h =
    ground
      (arith, slug_char_kept c, dash_not_letter c, slug_rest_fixed false s, slug_rest_fixed true s)

slug_of_fixed : (s : Text) → IsSlug s → slug_of s ≡ s
unfolding slug_of is_slug_from
slug_of_fixed [] h = cc
slug_of_fixed (c ∷ s) h = ground (arith, slug_char_kept c, slug_rest_fixed false s)

-- The result of `slugify` is empty or a slug.
pub slugify-IsSlug : (s : Text) → (slugify s ≡ []) ⊎ IsSlug (slugify s)
slugify-IsSlug s = rw slugify-eq (slug_of-IsSlug s)

abbrev pub has_alnum : Text → Bool
has_alnum [] = false
has_alnum (c ∷ s) = is_alnum c || has_alnum s

slug_of-empty : (s : Text) → is_empty (slug_of s) ≡ not (has_alnum s)
unfolding slug_of
slug_of-empty [] = refl
slug_of-empty (c ∷ s) = ground (arith, slug_of-empty s)

-- A slug is left as it is.
pub slugify_fixed : (s : Text) → IsSlug s → slugify s ≡ s
slugify_fixed s h = slugify-eq s ∙ slug_of_fixed s h

-- Slugging twice is slugging once.
pub slugify-slugify : (s : Text) → slugify (slugify s) ≡ slugify s
slugify-slugify s = elim (slugify-IsSlug s) [
  | inl none_left ↦ rw none_left (slugify-eq [] ∙ unfold slug_of in refl)
  | inr slug ↦ slugify_fixed (slugify s) slug
]

-- The result of `slugify` is empty exactly if the input has no letter and no digit.
pub slugify-empty : (s : Text) → is_empty (slugify s) ≡ not (has_alnum s)
slugify-empty s = rw slugify-eq (slug_of-empty s)
