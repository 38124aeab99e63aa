-- ===== src/Catalog/Sources/Chosen.antt =====
-- The maps of chosen capabilities of backend/src/catalog.cpp, and the selectors made of them.
use insight_io.Base.{
  ℕ, ◌≤◌, ◌<◌, ◌≡◌, ◌≢◌, refl, sym, ◌∙◌, inl, inr, zero, suc, get_elem?, true, false, ◌||◌, none,
  some, List, [], ◌∷◌, ◌++◌, arith, ltb, ◌==◌, Text, text_eq, text_eq→eq, Bool-cases, ==_iff,
}
use insight_io.Types.{ResolvedCaps, StreamInfo, one_of, channels}
use insight_io.Catalog.Profiles.{
  Profile, profile_eq, eq→profile_eq, profile_lt, find, assign, Below, Ordered,
}
use insight_io.Catalog.Caps.{
  profile_of, improves, choose_round, choose_rounds, choose_video_caps_by_profile, contains_cap,
  any_cap, choose_audio_caps, choose_audio_round, better_audio,
}
use insight_io.Catalog.Caps.Best.{choose_rounds-Ordered, choose_video_caps_by_profile-IsBest}
use insight_io.Catalog.Sources.Source.{profile_label}
use insight_io.Base.Map.{insert, lookup}
use insight_io.Uri.Split.{append_cancel}
use insight_io.Catalog.Sources.Labels.{profile_label-injective}
use insight_io.Catalog.Sources.Apart.{AllDistinct, Apart, Prefixed}

-- Every capability is filed under its own profile.
abbrev Keyed : List (Profile × ResolvedCaps) → Type 0
Keyed [] = Unit {0}
Keyed ((p, c) ∷ m) = (p ≡ profile_of c) × Keyed m

assign-Keyed :
    (c : ResolvedCaps) (m : List (Profile × ResolvedCaps))
    → Keyed m
    → Keyed (assign (profile_of c) c m)
unfolding assign
assign-Keyed c [] h = (refl, tt)
assign-Keyed c ((q, d) ∷ m) (e, h) = elim (Bool-cases (profile_eq (profile_of c) q)) [
  | inl same ↦ rw same (refl, h)
  | inr other ↦ elim (Bool-cases (profile_lt (profile_of c) q)) [
    | inl lower ↦ rw (other, lower) (refl, (e, h))
    | inr higher ↦ rw (other, higher) (e, assign-Keyed c m h)
  ]
]

choose_rounds-Keyed :
    (caps : List ResolvedCaps) (m : List (Profile × ResolvedCaps))
    → Keyed m
    → Keyed (choose_rounds caps m)
unfolding choose_rounds choose_round
choose_rounds-Keyed [] m h = h
choose_rounds-Keyed (c ∷ caps) m h = elim (Bool-cases (improves c (find (profile_of c) m))) [
  | inl better ↦
      rw better (choose_rounds-Keyed caps (assign (profile_of c) c m) (assign-Keyed c m h))
  | inr worse ↦ rw worse (choose_rounds-Keyed caps m h)
]

find-Below : (p : Profile) (m : List (Profile × ResolvedCaps)) → Below p m → find p m ≡ none
unfolding find
find-Below p [] h = refl
find-Below p ((q, c) ∷ m) (lower, h) = ground (arith, find-Below p m h)

-- The selectors made of the chosen capabilities, behind a prefix.
abbrev pub labels : Text → List (Profile × ResolvedCaps) → List Text
labels prefix [] = []
labels prefix ((p, c) ∷ m) = (prefix ++ profile_label c) ∷ labels prefix m

==_apart :
    (q : Profile) (c d : ResolvedCaps)
    → q ≡ profile_of d
    → profile_eq q (profile_of c) ≡ false
    → profile_of c ≢ profile_of d
==_apart q c d key other same =
    let equal = eq→profile_eq q (profile_of c) (key ∙ sym same) in absurd cc

label_apart :
    (prefix : Text) (c d : ResolvedCaps)
    → profile_of c ≢ profile_of d
    → text_eq (prefix ++ profile_label c) (prefix ++ profile_label d) ≡ false
label_apart prefix c d apart =
    let one = prefix ++ profile_label c in
    let two = prefix ++ profile_label d in
    elim (Bool-cases (text_eq one two)) [
      | inl same ↦
          let tails = append_cancel prefix _ _ (text_eq→eq one two same) in
          absurd (apart (profile_label-injective c d tails))
      | inr other ↦ other
    ]

one_of-labels :
    (prefix : Text) (c : ResolvedCaps) (m : List (Profile × ResolvedCaps))
    → Keyed m
    → find (profile_of c) m ≡ none
    → one_of (prefix ++ profile_label c) (labels prefix m) ≡ false
unfolding one_of find
one_of-labels prefix c [] h e = refl
one_of-labels prefix c ((q, d) ∷ m) (key, h) e = elim (Bool-cases (profile_eq q (profile_of c))) [
  | inl same ↦ absurd (ground arith)
  | inr other ↦
      let new = label_apart prefix c d (λ same. ==_apart q c d key other same) in
      let rest : find (profile_of c) m ≡ none = ground arith in
      rw new (one_of-labels prefix c m h rest)
]

pub labels-AllDistinct :
    (prefix : Text) (m : List (Profile × ResolvedCaps))
    → Keyed m
    → Ordered m
    → AllDistinct (labels prefix m)
labels-AllDistinct prefix [] keyed ordered = tt
labels-AllDistinct prefix ((p, c) ∷ m) (key, keyed) (below, ordered) = (
  one_of-labels prefix c m keyed (rw (sym key) (find-Below p m below)),
  labels-AllDistinct prefix m keyed ordered,
)

pub labels-Prefixed :
    (prefix : Text) (m : List (Profile × ResolvedCaps)) → Prefixed prefix (labels prefix m)
labels-Prefixed prefix [] = tt
labels-Prefixed prefix ((p, c) ∷ m) = ((profile_label c, refl), labels-Prefixed prefix m)

-- The capabilities that are chosen from a stream.
pub chosen-Keyed : (stream : StreamInfo) → Keyed (choose_video_caps_by_profile stream)
unfolding choose_video_caps_by_profile
chosen-Keyed stream = choose_rounds-Keyed stream.supported_caps [] tt

pub chosen-Ordered : (stream : StreamInfo) → Ordered (choose_video_caps_by_profile stream)
unfolding choose_video_caps_by_profile
chosen-Ordered stream = choose_rounds-Ordered stream.supported_caps [] tt

pub labels-Apart :
    (prefix : Text) (d : ResolvedCaps) (m : List (Profile × ResolvedCaps))
    → Keyed m
    → find (profile_of d) m ≡ none
    → Apart (labels prefix m) ((prefix ++ profile_label d) ∷ [])
unfolding find one_of
labels-Apart prefix d [] keyed e = tt
labels-Apart prefix d ((q, c) ∷ m) (key, keyed) e =
    elim (Bool-cases (profile_eq q (profile_of d))) [
      | inl same ↦ absurd (ground arith)
      | inr other ↦
          let apart : profile_of c ≢ profile_of d =
            λ same. let equal = eq→profile_eq q (profile_of d) (key ∙ same) in absurd cc in
          let rest : find (profile_of d) m ≡ none = ground arith in
          (rw (label_apart prefix c d apart) refl, labels-Apart prefix d m keyed rest)
    ]

any_cap-offered :
    (p : Profile) (caps : List ResolvedCaps) (i : ℕ) (c : ResolvedCaps)
    → get_elem? caps i ≡ some c
    → profile_eq (profile_of c) p ≡ true
    → any_cap p caps ≡ true
unfolding any_cap
any_cap-offered p [] i c at same = absurd cc
any_cap-offered p (d ∷ caps) zero c at same = let e : d ≡ c = cc in rw e (rw same refl)
any_cap-offered p (d ∷ caps) (suc i) c at same = ground (arith, any_cap-offered p caps i c at same)

-- A profile that a stream does not offer is not chosen.
pub find-missing :
    (stream : StreamInfo) (p : Profile)
    → contains_cap stream p ≡ false
    → find p (choose_video_caps_by_profile stream) ≡ none
unfolding contains_cap
find-missing stream p missing = elim (choose_video_caps_by_profile-IsBest stream p) [
  | inl (_, _, e) ↦ e
  | inr (best, _, _, is_best) ↦
      let there =
        any_cap-offered p stream.supported_caps is_best.index best is_best.offered
          is_best.matching in
      absurd cc
]

-- Channel counts of 1 or 2, rising from above `lo`.
abbrev pub Keys : ℕ → List (ℕ × ResolvedCaps) → Type 0
Keys lo [] = Unit {0}
Keys lo ((k, c) ∷ m) = (lo < k) × (k ≤ 2) × Keys k m

insert-Keys :
    (lo k : ℕ) (c : ResolvedCaps) (m : List (ℕ × ResolvedCaps))
    → Keys lo m
    → lo < k
    → k ≤ 2
    → Keys lo (insert k c m)
unfolding insert
insert-Keys lo k c [] h lt le = (lt, le, tt)
insert-Keys lo k c ((j, d) ∷ m) (lt_j, le_j, h) lt le = elim (Bool-cases (k == j)) [
  | inl same ↦ rw same (lt, le, rw ((==_iff k j).0 same) h)
  | inr other ↦ elim (Bool-cases (ltb k j)) [
    | inl lower ↦ rw (other, lower) (lt, le, (ground arith, le_j, h))
    | inr higher ↦ rw (other, higher) (lt_j, le_j, insert-Keys j k c m h (ground arith) le)
  ]
]

pub choose_audio_caps-Keys :
    (caps : List ResolvedCaps) (m : List (ℕ × ResolvedCaps))
    → Keys 0 m
    → Keys 0 (choose_audio_caps caps m)
unfolding choose_audio_caps choose_audio_round
choose_audio_caps-Keys [] m h = h
choose_audio_caps-Keys (c ∷ caps) m h = elim (Bool-cases (channels c == 0 || ltb 2 (channels c))) [
  | inl skipped ↦ rw skipped (choose_audio_caps-Keys caps m h)
  | inr counted ↦ elim (Bool-cases (better_audio c (lookup (channels c) m))) [
    | inl better ↦
        rw (counted, better)
          (choose_audio_caps-Keys caps (insert (channels c) c m)
            (insert-Keys 0 (channels c) c m h (ground arith) (ground arith)))
    | inr worse ↦ rw (counted, worse) (choose_audio_caps-Keys caps m h)
  ]
]
