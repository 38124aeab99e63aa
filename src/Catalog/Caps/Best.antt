-- ===== src/Catalog/Caps/Best.antt =====
-- The two routines of backend/src/catalog.cpp that choose a capability of a stream, against each
-- other and against the ranks of the formats.
use insight_io.Base.{
  ℕ, suc, ◌≤◌, ◌<◌, ◌≡◌, refl, sym, ap, ◌∙◌, ◌⊎◌, inl, inr, true, false, Option, none, some, List,
  [], ◌∷◌, arith, get_elem?, Bool-cases, ◌&&◌,
}
use insight_io.Types.{ResolvedCaps, StreamInfo}
use insight_io.Catalog.Profiles.{
  Profile, profile_eq, profile_eq→eq, profile_eq_refl, find, find-assign, Ordered, assign-Ordered,
}
use insight_io.Catalog.Caps.{
  video_format_rank, profile_of, improves, choose_round, choose_rounds,
  choose_video_caps_by_profile, any_cap, contains_cap, find_cap_round, find_cap_rounds, find_cap,
}

find-choose_round :
    (p : Profile) (chosen : List (Profile × ResolvedCaps)) (c : ResolvedCaps)
    → find p (choose_round chosen c) ≡ find_cap_round p (find p chosen) c
unfolding choose_round find_cap_round
find-choose_round p chosen c = elim (Bool-cases (profile_eq (profile_of c) p)) [
  | inl same ↦
      let e = profile_eq→eq (profile_of c) p same in
      let step = find-assign (profile_of c) p c chosen in
      elim (Bool-cases (improves c (find p chosen))) [
        | inl better ↦
            rw (same, e) (rw better (rw (find-assign p p c chosen, profile_eq_refl p) refl))
        | inr worse ↦ rw (same, e) (rw worse refl)
      ]
  | inr other ↦ elim (Bool-cases (improves c (find (profile_of c) chosen))) [
    | inl better ↦ rw (other, better) (rw (find-assign (profile_of c) p c chosen, other) refl)
    | inr worse ↦ rw (other, worse) refl
  ]
]

find-choose_rounds :
    (p : Profile) (caps : List ResolvedCaps) (chosen : List (Profile × ResolvedCaps))
    → find p (choose_rounds caps chosen) ≡ find_cap_rounds p caps (find p chosen)
unfolding choose_rounds find_cap_rounds
find-choose_rounds p [] chosen = refl
find-choose_rounds p (c ∷ caps) chosen =
    find-choose_rounds p caps (choose_round chosen c)
    ∙ ap (find_cap_rounds p caps) (find-choose_round p chosen c)

-- What `choose_video_caps_by_profile` takes for a profile is what `find_cap` finds for it.
pub find-choose_video_caps_by_profile :
    (stream : StreamInfo) (p : Profile)
    → find p (choose_video_caps_by_profile stream) ≡ find_cap stream p
unfolding choose_video_caps_by_profile find_cap find
find-choose_video_caps_by_profile stream p = find-choose_rounds p stream.supported_caps []

choose_round-Ordered :
    (chosen : List (Profile × ResolvedCaps)) (c : ResolvedCaps)
    → Ordered chosen
    → Ordered (choose_round chosen c)
unfolding choose_round
choose_round-Ordered chosen c h = elim (Bool-cases (improves c (find (profile_of c) chosen))) [
  | inl better ↦ rw better (assign-Ordered (profile_of c) c chosen h)
  | inr worse ↦ rw worse h
]

pub choose_rounds-Ordered :
    (caps : List ResolvedCaps) (chosen : List (Profile × ResolvedCaps))
    → Ordered chosen
    → Ordered (choose_rounds caps chosen)
unfolding choose_rounds
choose_rounds-Ordered [] chosen h = h
choose_rounds-Ordered (c ∷ caps) chosen h =
    choose_rounds-Ordered caps (choose_round chosen c) (choose_round-Ordered chosen c h)

-- No capability of the profile has a rank below `r`.
abbrev pub AtLeast : Profile → ℕ → List ResolvedCaps → Type 0
AtLeast p r [] = Unit {0}
AtLeast p r (c ∷ caps) =
    (profile_eq (profile_of c) p ≡ true → r ≤ video_format_rank c.format) × AtLeast p r caps

-- One of the capabilities, of the profile, with the least rank.
pub record IsBest (p : Profile) (caps : List ResolvedCaps) (best : ResolvedCaps) : Type 0 where
  pub index : ℕ
  pub offered : get_elem? caps index ≡ some best
  pub matching : profile_eq (profile_of best) p ≡ true
  pub least : AtLeast p (video_format_rank best.format) caps

-- What the loop of `find_cap` ends with, from what it held.
RoundsEnd : Profile → List ResolvedCaps → Option ResolvedCaps → Option ResolvedCaps → Type 0
RoundsEnd p caps held none = (held ≡ none) × (any_cap p caps ≡ false)
RoundsEnd p caps held (some best) =
    ((held ≡ some best)
      ⊎ ((i : ℕ) × (get_elem? caps i ≡ some best) × (profile_eq (profile_of best) p ≡ true)))
    × ((h : ResolvedCaps)
        → held ≡ some h
        → video_format_rank best.format ≤ video_format_rank h.format)
    × AtLeast p (video_format_rank best.format) caps

round-cases :
    (p : Profile) (held : Option ResolvedCaps) (c : ResolvedCaps)
    → ((profile_eq (profile_of c) p ≡ true)
        × (improves c held ≡ true)
        × (find_cap_round p held c ≡ some c))
      ⊎ (((profile_eq (profile_of c) p && improves c held) ≡ false)
          × (find_cap_round p held c ≡ held))
unfolding find_cap_round
round-cases p held c = elim (Bool-cases (profile_eq (profile_of c) p)) [
  | inl same ↦ elim (Bool-cases (improves c held)) [
    | inl better ↦ rw (same, better) (inl (refl, refl, refl))
    | inr worse ↦ rw (same, worse) (inr (refl, refl))
  ]
  | inr other ↦ rw other (inr (refl, refl))
]

improves-lt :
    (c : ResolvedCaps) (held : Option ResolvedCaps) (h : ResolvedCaps)
    → improves c held ≡ true
    → held ≡ some h
    → video_format_rank c.format < video_format_rank h.format
improves-lt c none h better e = absurd cc
improves-lt c (some g) h better e = ground arith

improves-none :
    (c : ResolvedCaps) (held : Option ResolvedCaps) → held ≡ none → improves c held ≡ true
improves-none c none e = refl
improves-none c (some h) e = absurd cc

improves-le :
    (p : Profile) (c : ResolvedCaps) (held : Option ResolvedCaps)
    → (profile_eq (profile_of c) p && improves c held) ≡ false
    → profile_eq (profile_of c) p ≡ true
    → (h : ResolvedCaps) × (held ≡ some h)
      × (video_format_rank h.format ≤ video_format_rank c.format)
improves-le p c none skipped same = absurd (ground arith)
improves-le p c (some h) skipped same = (h, refl, ground arith)

RoundsEnd-cons :
    (p : Profile) (c : ResolvedCaps) (caps : List ResolvedCaps) (held r : Option ResolvedCaps)
    → RoundsEnd p caps (find_cap_round p held c) r
    → RoundsEnd p (c ∷ caps) held r
unfolding RoundsEnd any_cap
RoundsEnd-cons p c caps held none (empty, left) = elim (round-cases p held c) [
  | inl (same, better, e) ↦ absurd cc
  | inr (skipped, e) ↦
      let better = improves-none c held (sym e ∙ empty) in (sym e ∙ empty, ground arith)
]
RoundsEnd-cons p c caps held (some best) (from, le, all) = elim (round-cases p held c) [
  | inl (same, better, e) ↦ (
    inr (elim from [
      | inl q ↦ let b : best ≡ c = cc in (0, sym e ∙ q, rw b same)
      | inr (i, at, matching) ↦ (suc i, at, matching)
    ]),
    λ h held_h. let lt = improves-lt c held h better held_h in let low = le c e in omega arith,
    (λ _. le c e, all),
  )
  | inr (skipped, e) ↦ (
    elim from [ inl q ↦ inl (sym e ∙ q) | inr (i, at, matching) ↦ inr (suc i, at, matching) ],
    λ h held_h. le h (e ∙ held_h),
    (
      λ same.
          let (h, held_h, high) = improves-le p c held skipped same in
          let low = le h (e ∙ held_h) in omega arith,
      all,
    ),
  )
]

find_cap_rounds-end :
    (p : Profile) (caps : List ResolvedCaps) (held : Option ResolvedCaps)
    → RoundsEnd p caps held (find_cap_rounds p caps held)
unfolding find_cap_rounds RoundsEnd any_cap
find_cap_rounds-end p [] none = (refl, refl)
find_cap_rounds-end p [] (some h) = (inl refl, λ g e. ground arith, tt)
find_cap_rounds-end p (c ∷ caps) held =
    RoundsEnd-cons p c caps held (find_cap_rounds p caps (find_cap_round p held c))
      (find_cap_rounds-end p caps (find_cap_round p held c))

find_cap_rounds-IsBest :
    (p : Profile) (caps : List ResolvedCaps) (r : Option ResolvedCaps)
    → RoundsEnd p caps none r
    → ((r ≡ none) × (any_cap p caps ≡ false))
      ⊎ ((best : ResolvedCaps) × (r ≡ some best) × IsBest p caps best)
unfolding RoundsEnd
find_cap_rounds-IsBest p caps none (_, left) = inl (refl, left)
find_cap_rounds-IsBest p caps (some best) (from, _, least) = elim from [
  | inl e ↦ absurd cc
  | inr (i, at, matching) ↦
      inr (best, refl, record { index = i; offered = at; matching = matching; least = least })
]

-- For every width, height and frame rate: either the stream offers no such capability, and neither
-- `find_cap` nor `choose_video_caps_by_profile` has one for it, or both have the same one, which the
-- stream offers and whose format has the least rank among all it offers for them.
pub choose_video_caps_by_profile-IsBest :
    (stream : StreamInfo) (p : Profile)
    → ((contains_cap stream p ≡ false)
        × (find_cap stream p ≡ none)
        × (find p (choose_video_caps_by_profile stream) ≡ none))
      ⊎ ((best : ResolvedCaps) × (find_cap stream p ≡ some best)
          × (find p (choose_video_caps_by_profile stream) ≡ some best)
          × IsBest p stream.supported_caps best)
unfolding find_cap contains_cap
choose_video_caps_by_profile-IsBest stream p =
    let caps = stream.supported_caps in
    let same = find-choose_video_caps_by_profile stream p in
    let end = find_cap_rounds-end p caps none in
    elim (find_cap_rounds-IsBest p caps (find_cap_rounds p caps none) end) [
      | inl (empty, left) ↦ inl (left, empty, same ∙ empty)
      | inr (best, found, is_best) ↦ inr (best, found, same ∙ found, is_best)
    ]
