-- ===== src/Types/Slug/Segments.antt =====
-- `normalize_stream_public_name` of catalog.cpp against a join of slugs.
use mathlib.Core.List.{append_assoc, append-nil}
use mathlib.Core.Path.{ap₂}
use insight_io.Base.{
  ℕ, ◌≡◌, refl, sym, ap, ◌∙◌, inl, inr, Bool, true, false, not, ◌&&◌, List, [], ◌∷◌, ◌++◌, map,
  arith, ◌==◌, ==_iff, if◌then◌else◌, Text, is_empty, Bool-cases,
}
use insight_io.Uri.Split.{contains}
use insight_io.Types.Slug.{slugify, segments, join_slugs, normalize_stream_public_name}
use insight_io.Types.Slug.Laws.{IsSlug, is_slug_from, slugify-IsSlug, slugify_fixed}

abbrev pub all_named : List Text → Bool
all_named [] = true
all_named (part ∷ parts) = not (is_empty (slugify part)) && all_named parts

abbrev pub join_tail : List Text → Text
join_tail [] = []
join_tail (s ∷ ss) = b'/' ∷ (s ++ join_tail ss)

-- The texts with slashes between them.
abbrev pub join : List Text → Text
join [] = []
join (s ∷ ss) = s ++ join_tail ss

not_empty-middle : (r : Text) (c : ℕ) (s : Text) → is_empty (r ++ c ∷ s) ≡ false
not_empty-middle [] c s = refl
not_empty-middle (a ∷ r) c s = refl

join_slugs-named :
    (parts : List Text) (acc : Text)
    → all_named parts ≡ true
    → is_empty acc ≡ false
    → join_slugs parts acc ≡ acc ++ join_tail (map slugify parts)
unfolding join_slugs
join_slugs-named [] acc named full = sym (append-nil acc)
join_slugs-named (part ∷ parts) acc named full =
    let slug = slugify part in
    let this : is_empty slug ≡ false = ground arith in
    let others : all_named parts ≡ true = ground arith in
    rw (this, full)
      (join_slugs-named parts (acc ++ b'/' ∷ slug) others (not_empty-middle acc b'/' slug)
        ∙ append_assoc acc (b'/' ∷ slug) (join_tail (map slugify parts)))

join_slugs-unnamed :
    (parts : List Text) (acc : Text) → all_named parts ≡ false → join_slugs parts acc ≡ []
unfolding join_slugs
join_slugs-unnamed [] acc h = cc
join_slugs-unnamed (part ∷ parts) acc h =
    let slug = slugify part in
    ground (arith, join_slugs-unnamed parts (if is_empty acc then slug else acc ++ b'/' ∷ slug))

join_slugs-start :
    (parts : List Text)
    → join_slugs parts [] ≡ (if all_named parts then join (map slugify parts) else [])
unfolding join_slugs
join_slugs-start [] = refl
join_slugs-start (part ∷ parts) = elim (Bool-cases (is_empty (slugify part))) [
  | inl none_left ↦ rw none_left
  | inr full ↦ elim (Bool-cases (all_named parts)) [
    | inl named ↦ rw (full, named) (join_slugs-named parts (slugify part) named full)
    | inr unnamed ↦ rw (full, unnamed) (join_slugs-unnamed parts (slugify part) unnamed)
  ]
]

normalize_lem :
    (input : Text)
    → normalize_stream_public_name input
      ≡ (if all_named (segments input []) then join (map slugify (segments input [])) else [])
unfolding normalize_stream_public_name
normalize_lem input = join_slugs-start (segments input [])

-- No text of the list has a slash.
abbrev pub AllPlain : List Text → Type 0
AllPlain [] = Unit {0}
AllPlain (part ∷ parts) = (contains b'/' part ≡ false) × AllPlain parts

-- A text has at least one part.
segments-cons : (s part : Text) → (p : Text) × (ps : List Text) × (segments s part ≡ p ∷ ps)
unfolding segments
segments-cons [] part = (part, [], refl)
segments-cons (c ∷ s) part = elim (Bool-cases (c == b'/')) [
  | inl slash ↦ rw slash (part, segments s [], refl)
  | inr other ↦ rw other (segments-cons s (part ++ c ∷ []))
]

join-segments : (s part : Text) → join (segments s part) ≡ part ++ s
unfolding segments
join-segments [] part = refl
join-segments (c ∷ s) part = elim (Bool-cases (c == b'/')) [
  | inl slash ↦
      let (p, ps, e) = segments-cons s [] in
      rw (slash, (==_iff c b'/').0 slash)
        (ap (λ l. part ++ l) (rw e (ap (λ l. b'/' ∷ l) (sym (ap join e) ∙ join-segments s []))))
  | inr other ↦ rw other (join-segments s (part ++ c ∷ []) ∙ append_assoc part (c ∷ []) s)
]

contains-append :
    (part : Text) (c : ℕ)
    → contains b'/' part ≡ false
    → (c == b'/') ≡ false
    → contains b'/' (part ++ c ∷ []) ≡ false
unfolding contains
contains-append [] c h other = ground arith
contains-append (d ∷ part) c h other = ground (arith, contains-append part c)

segments-AllPlain : (s part : Text) → contains b'/' part ≡ false → AllPlain (segments s part)
unfolding segments contains
segments-AllPlain [] part h = (h, tt)
segments-AllPlain (c ∷ s) part h = elim (Bool-cases (c == b'/')) [
  | inl slash ↦ rw slash (h, segments-AllPlain s [] refl)
  | inr other ↦ rw other (segments-AllPlain s (part ++ c ∷ []) (contains-append part c h other))
]

-- Every input is some parts without slashes, with slashes between them. If every part has a letter or a
-- digit, the normalised name is the slugs of the parts with slashes between them; otherwise it is
-- empty.
pub normalize-join :
    (input : Text)
    → (parts : List Text) × AllPlain parts
      × (join parts ≡ input)
      × (normalize_stream_public_name input
          ≡ (if all_named parts then join (map slugify parts) else []))
normalize-join input = (
  segments input [],
  segments-AllPlain input [] (unfold contains in refl),
  join-segments input [],
  normalize_lem input,
)

abbrev AllSlugs : List Text → Type 0
AllSlugs [] = Unit {0}
AllSlugs (s ∷ ss) = IsSlug s × AllSlugs ss

named-AllSlugs : (parts : List Text) → all_named parts ≡ true → AllSlugs (map slugify parts)
named-AllSlugs [] h = tt
named-AllSlugs (part ∷ parts) h = (
  elim (slugify-IsSlug part) [
    | inl none_left ↦ absurd (ground (arith, none_left))
    | inr slug ↦ slug
  ],
  named-AllSlugs parts (ground arith),
)

slug_step :
    (dashed : Bool) (c : ℕ) (s : Text)
    → is_slug_from dashed (c ∷ s) ≡ true
    → ((c == b'/') ≡ false) × (is_slug_from (c == b'-') s ≡ true)
unfolding is_slug_from
slug_step dashed c s h = ground arith

segments-slug :
    (dashed : Bool) (s rest part : Text)
    → is_slug_from dashed s ≡ true
    → segments (s ++ rest) part ≡ segments rest (part ++ s)
unfolding segments
segments-slug dashed [] rest part h = ap (segments rest) (sym (append-nil part))
segments-slug dashed (c ∷ s) rest part h =
    let (no_slash, next) = slug_step dashed c s h in
    rw no_slash (
      segments-slug (c == b'-') s rest (part ++ c ∷ []) next
      ∙ ap (segments rest) (append_assoc part (c ∷ []) s))

segments-join_tail :
    (ss : List Text) (part : Text) → AllSlugs ss → segments (join_tail ss) part ≡ part ∷ ss
unfolding segments
segments-join_tail [] part h = refl
segments-join_tail (s ∷ ss) part (slug, slugs) =
    ap (λ l. part ∷ l) (segments-slug true s (join_tail ss) [] slug ∙ segments-join_tail ss s slugs)

segments-join :
    (s : Text) (ss : List Text) → AllSlugs (s ∷ ss) → segments (join (s ∷ ss)) [] ≡ s ∷ ss
segments-join s ss (slug, slugs) =
    segments-slug true s (join_tail ss) [] slug ∙ segments-join_tail ss s slugs

slugify-AllSlugs : (ss : List Text) → AllSlugs ss → map slugify ss ≡ ss
slugify-AllSlugs [] h = refl
slugify-AllSlugs (s ∷ ss) (slug, slugs) =
    ap₂ (λ x xs. x ∷ xs) (slugify_fixed s slug) (slugify-AllSlugs ss slugs)

IsSlug-full : (s : Text) → IsSlug s → is_empty s ≡ false
unfolding is_slug_from
IsSlug-full [] h = cc
IsSlug-full (c ∷ s) h = refl

AllSlugs-named : (ss : List Text) → AllSlugs ss → all_named ss ≡ true
AllSlugs-named [] h = refl
AllSlugs-named (s ∷ ss) (slug, slugs) =
    rw (slugify_fixed s slug, IsSlug-full s slug) (AllSlugs-named ss slugs)

normalize_fixed :
    (s : Text) (ss : List Text)
    → AllSlugs (s ∷ ss)
    → normalize_stream_public_name (join (s ∷ ss)) ≡ join (s ∷ ss)
normalize_fixed s ss h =
    rw (normalize_lem, segments-join s ss h, AllSlugs-named (s ∷ ss) h)
      (ap join (slugify-AllSlugs (s ∷ ss) h))

normalize_nil : normalize_stream_public_name [] ≡ []
normalize_nil = normalize_lem [] ∙ (unfold segments slugify in refl)

-- Normalising twice is normalising once.
pub normalize-normalize :
    (input : Text)
    → normalize_stream_public_name (normalize_stream_public_name input)
      ≡ normalize_stream_public_name input
normalize-normalize input = elim (Bool-cases (all_named (segments input []))) [
  | inl named ↦
      let (p, ps, parts) = segments-cons input [] in
      let normal : normalize_stream_public_name input ≡ join (map slugify (p ∷ ps)) =
        normalize_lem input ∙ rw (named, parts) refl in
      rw normal (
        normalize_fixed (slugify p) (map slugify ps)
          (named-AllSlugs (p ∷ ps) (ap all_named (sym parts) ∙ named)))
  | inr unnamed ↦
      let empty : normalize_stream_public_name input ≡ [] = normalize_lem input ∙ rw unnamed refl in
      rw empty normalize_nil
]
