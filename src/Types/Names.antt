-- ===== src/Types/Names.antt =====
-- `public_device_id_base` and `default_stream_name` of types.cpp.
use mathlib.Core.Path.{subst}
use insight_io.Base.{
  ℕ, ◌≡◌, refl, ◌⊎◌, inl, inr, Bool, true, false, Option, none, some, [], ◌∷◌, ◌++◌, arith, ltb,
  Text, codes, is_empty, Bool-cases,
}
use insight_io.Types.{DeviceInfo}
use insight_io.Types.{device_name_base, public_device_id_base, or_slug, before_colon}
use insight_io.Types.Decimal.{to_string, AllDigits, to_string-AllDigits, to_string-cons}
use insight_io.Types.Slug.{slugify}
use insight_io.Types.Slug.Laws.{IsSlug, is_slug_from, slugify-IsSlug}

or_slug-IsSlug :
    (base text : Text)
    → (base ≡ []) ⊎ IsSlug base
    → (or_slug base text ≡ []) ⊎ IsSlug (or_slug base text)
or_slug-IsSlug [] text h = slugify-IsSlug text
or_slug-IsSlug (c ∷ s) text h = h

digits-slug :
    (dashed : Bool) (s : Text) (d : ℕ) → AllDigits (d ∷ s) → is_slug_from dashed (d ∷ s) ≡ true
unfolding is_slug_from
digits-slug dashed [] d h = ground arith
digits-slug dashed (e ∷ s) d (lo, hi, rest) = ground (arith, digits-slug false s e rest)

fallback-IsSlug : (n : ℕ) → IsSlug (codes "device-" ++ to_string n)
unfolding is_slug_from
fallback-IsSlug n =
    let (d, s, e) = to_string-cons n in
    rw e (digits-slug true s d (subst AllDigits e (to_string-AllDigits n)))

prefix-IsSlug :
    (o : Option Text)
    → let base : Text = elim o [ none ↦ [] | some t ↦ slugify t ] in (base ≡ []) ⊎ IsSlug base
prefix-IsSlug none = inl refl
prefix-IsSlug (some t) = slugify-IsSlug t

device_name_base-IsSlug :
    (device : DeviceInfo) → (device_name_base device ≡ []) ⊎ IsSlug (device_name_base device)
unfolding device_name_base
device_name_base-IsSlug device = or_slug-IsSlug _ device.identity.device_id (
    or_slug-IsSlug _ device.identity.hardware_name
      (or_slug-IsSlug _ device.name (prefix-IsSlug (before_colon device.name))))

IsSlug-full : (s : Text) → IsSlug s → is_empty s ≡ false
unfolding is_slug_from
IsSlug-full [] h = cc
IsSlug-full (c ∷ s) h = refl

-- A device always gets a name, and the name is a slug.
pub public_device_id_base-IsSlug :
    (device : DeviceInfo) (fallback_index : ℕ)
    → IsSlug (public_device_id_base device fallback_index)
unfolding public_device_id_base
public_device_id_base-IsSlug device fallback_index = elim (device_name_base-IsSlug device) [
  | inl nameless ↦ elim (Bool-cases (ltb 0 fallback_index)) [
    | inl numbered ↦ rw (nameless, numbered) (fallback-IsSlug fallback_index)
    | inr first ↦ rw (nameless, first) (unfold is_slug_from in refl)
  ]
  | inr slug ↦ rw (IsSlug-full _ slug) slug
]
