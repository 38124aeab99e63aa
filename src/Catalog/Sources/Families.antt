-- ===== src/Catalog/Sources/Families.antt =====
-- The selectors that `build_orbbec_sources` of backend/src/catalog.cpp makes, by their prefix.
use insight_io.Base.{
  ◌≡◌, refl, ap, Bool, true, false, ◌&&◌, not, Option, none, some, List, [], ◌∷◌, ◌++◌, map, arith,
  Text, codes, text_eq,
}
use mathlib.Core.Path.{subst}
use insight_io.Json.{JsonApi}
use insight_io.Types.{ResolvedCaps, StreamInfo, DeviceInfo, one_of}
use insight_io.Catalog.Profiles.{Profile}
use insight_io.Catalog.Caps.{choose_video_caps_by_profile, find_cap, contains_cap, resolution_label}
use insight_io.Catalog.Sources.Source.{
  CatalogSource, when_some, when, profile_label, make_source, profile_at,
}
use insight_io.Catalog.Sources.Orbbec.{
  color_source, depth_source, aligned_source, grouped_480_source, grouped_720_source, color_sources,
  depth_sources, preset_sources,
}
use insight_io.Types.Decimal.{to_string}
use insight_io.Catalog.Sources.Apart.{
  AllDistinct, Apart, Prefixed, AllDistinct-append, Apart-empty, Apart-Prefixed, Prefixed-append,
}
use insight_io.Catalog.Sources.Chosen.{
  labels, labels-AllDistinct, labels-Prefixed, chosen-Keyed, chosen-Ordered, labels-Apart,
  find-missing,
}

pub clash_color-depth :
    (s u : Text) → text_eq (codes "orbbec/color/" ++ s) (codes "orbbec/depth/" ++ u) ≡ false
unfolding text_eq
clash_color-depth s u = refl

pub clash_color-preset :
    (s u : Text) → text_eq (codes "orbbec/color/" ++ s) (codes "orbbec/preset/" ++ u) ≡ false
unfolding text_eq
clash_color-preset s u = refl

clash_presets :
    (s u : Text) → text_eq (codes "orbbec/preset/4" ++ s) (codes "orbbec/preset/7" ++ u) ≡ false
unfolding text_eq
clash_presets s u = refl

-- The label of the aligned depth stream.
abbrev aligned_profile : ResolvedCaps
aligned_profile = record { index = 0; format = []; width = 640; height = 480; fps = 30 }

aligned_label : profile_label aligned_profile ≡ codes "480p_30"
unfolding resolution_label to_string
aligned_label = refl

pub clash_depth-preset :
    (s u : Text) → text_eq (codes "orbbec/depth/" ++ s) (codes "orbbec/preset/" ++ u) ≡ false
unfolding text_eq
clash_depth-preset s u = refl

module _ (J : JsonApi) where
  abbrev pub selectors : List (CatalogSource J) → List Text
  selectors [] = []
  selectors (s ∷ ss) = s.selector ∷ selectors ss

  pub selectors-append :
      (a b : List (CatalogSource J)) → selectors (a ++ b) ≡ selectors a ++ selectors b
  selectors-append [] b = refl
  selectors-append (s ∷ a) b = ap (λ l. s.selector ∷ l) (selectors-append a b)

  -- Sources whose selectors are labels behind a prefix.
  pub selectors-map :
      (prefix : Text) (f : ResolvedCaps → CatalogSource J)
      → ((c : ResolvedCaps) → (f c).selector ≡ prefix ++ profile_label c)
      → (m : List (Profile × ResolvedCaps))
      → selectors (map (λ entry. f entry.1) m) ≡ labels prefix m
  selectors-map prefix f h [] = refl
  selectors-map prefix f h ((p, c) ∷ m) = rw (h c, selectors-map prefix f h m) refl

  -- What holds of the empty list and of what a function returns holds of `when_some` and `when`.
  pub by_when_some :
      {A : Type 0} (o : Option A) (f : A → List (CatalogSource J))
      (P : List (CatalogSource J) → Type 0)
      → P []
      → ((a : A) → P (f a))
      → P (when_some J o f)
  by_when_some none f P p q = p
  by_when_some (some a) f P p q = q a

  by_when :
      (b : Bool) (l : List (CatalogSource J)) (P : List (CatalogSource J) → Type 0)
      → P []
      → (b ≡ true → P l)
      → P (when J b l)
  by_when true l P p q = q refl
  by_when false l P p q = p

  -- Sources with different selectors that begin with a prefix.
  unfoldable pub Family : Text → List (CatalogSource J) → Type 0
  Family prefix l = AllDistinct (selectors l) × Prefixed prefix (selectors l)

  Family-append :
      (prefix : Text) (a b : List (CatalogSource J))
      → Family prefix a
      → Family prefix b
      → Apart (selectors a) (selectors b)
      → Family prefix (a ++ b)
  unfolding Family
  Family-append prefix a b (distinct_a, prefixed_a) (distinct_b, prefixed_b) apart =
      rw (selectors-append a b) (
        AllDistinct-append (selectors a) (selectors b) distinct_a distinct_b apart,
        Prefixed-append prefix (selectors a) (selectors b) prefixed_a prefixed_b,
      )

  module _ (device : DeviceInfo) (public_name rtsp_host : Text) where
    color-labels :
        (stream : StreamInfo)
        → selectors (color_sources J device public_name rtsp_host stream)
          ≡ labels (codes "orbbec/color/") (choose_video_caps_by_profile stream)
    unfolding color_sources
    color-labels stream =
        selectors-map (codes "orbbec/color/") (color_source J device public_name rtsp_host)
          (λ c. unfold color_source in unfold make_source in refl)
          (choose_video_caps_by_profile stream)

    pub color-Family :
        (stream : StreamInfo)
        → Family (codes "orbbec/color/") (color_sources J device public_name rtsp_host stream)
    unfolding Family
    color-Family stream =
        let m = choose_video_caps_by_profile stream in
        let prefix = codes "orbbec/color/" in
        rw (color-labels stream) (
          labels-AllDistinct prefix m (chosen-Keyed stream) (chosen-Ordered stream),
          labels-Prefixed prefix m,
        )

    -- The selectors of the aligned stream, if there is one.
    aligned-Family :
        (depth : StreamInfo) (native : ResolvedCaps)
        → contains_cap depth (profile_at 640 480 30) ≡ false
        → Family (codes "orbbec/depth/") (aligned_source J device public_name rtsp_host native ∷ [])
          × Apart
              (labels (codes "orbbec/depth/") (choose_video_caps_by_profile depth))
              (selectors (aligned_source J device public_name rtsp_host native ∷ []))
    unfolding Family aligned_source make_source one_of
    aligned-Family depth native missing = (
      ((refl, tt), ((codes "480p_30", refl), tt)),
      subst
          (λ t.
            Apart (labels (codes "orbbec/depth/") (choose_video_caps_by_profile depth))
              ((codes "orbbec/depth/" ++ t) ∷ []))
          aligned_label
          (labels-Apart (codes "orbbec/depth/") aligned_profile (choose_video_caps_by_profile depth)
            (chosen-Keyed depth) (find-missing depth (profile_at 640 480 30) missing)),
    )

    preset_480 :
        (c d : ResolvedCaps)
        → Family
            (codes "orbbec/preset/")
            (grouped_480_source J device public_name rtsp_host c d ∷ [])
          × Prefixed
              (codes "orbbec/preset/4")
              (selectors (grouped_480_source J device public_name rtsp_host c d ∷ []))
    unfolding Family grouped_480_source make_source one_of
    preset_480 c d = (((refl, tt), ((codes "480p_30", refl), tt)), ((codes "80p_30", refl), tt))

    preset_720 :
        (c d : ResolvedCaps)
        → Family
            (codes "orbbec/preset/")
            (grouped_720_source J device public_name rtsp_host c d ∷ [])
          × Prefixed
              (codes "orbbec/preset/7")
              (selectors (grouped_720_source J device public_name rtsp_host c d ∷ []))
    unfolding Family grouped_720_source make_source one_of
    preset_720 c d = (((refl, tt), ((codes "720p_30", refl), tt)), ((codes "20p_30", refl), tt))

    pub depth-Family :
        (stream : StreamInfo) (supported : Bool)
        → Family
            (codes "orbbec/depth/")
            (depth_sources J device public_name rtsp_host stream supported)
    unfolding depth_sources
    depth-Family stream supported =
        let m = choose_video_caps_by_profile stream in
        let prefix = codes "orbbec/depth/" in
        let front =
          map
            (λ (entry : Profile × ResolvedCaps).
              depth_source J device public_name rtsp_host entry.1)
            m in
        let same : selectors front ≡ labels prefix m =
          selectors-map prefix (depth_source J device public_name rtsp_host)
            (λ c. unfold depth_source in unfold make_source in refl) m in
        let front_Family : Family prefix front =
          unfold Family in
          rw same (
            labels-AllDistinct prefix m (chosen-Keyed stream) (chosen-Ordered stream),
            labels-Prefixed prefix m,
          ) in
        let P = λ (l : List (CatalogSource J)). Family prefix (front ++ l) in
        let alone : P [] =
          Family-append prefix front [] front_Family (unfold Family in (tt, tt))
            (Apart-empty (selectors front)) in
        by_when_some (find_cap stream (profile_at 640 400 30)) _ P alone (λ native.
          by_when (not (contains_cap stream (profile_at 640 480 30)) && supported) _ P alone (λ h.
            let missing : contains_cap stream (profile_at 640 480 30) ≡ false = ground arith in
            let (aligned, apart) = aligned-Family stream native missing in
            Family-append prefix front (aligned_source J device public_name rtsp_host native ∷ [])
              front_Family aligned (rw same apart)))

    pub preset-Family :
        (color depth : StreamInfo) (supported : Bool)
        → Family
            (codes "orbbec/preset/")
            (preset_sources J device public_name rtsp_host color depth supported)
    unfolding preset_sources
    preset-Family color depth supported =
        let all = codes "orbbec/preset/" in
        let of_480 = codes "orbbec/preset/4" in
        let of_720 = codes "orbbec/preset/7" in
        let P =
          λ (p : Text) (l : List (CatalogSource J)). Family all l × Prefixed p (selectors l) in
        let nothing : (p : Text) → P p [] = λ p. unfold Family in ((tt, tt), tt) in
        let (first, first_480) =
          by_when_some (find_cap color (profile_at 640 480 30)) _ (P of_480) (nothing of_480) (λ c.
            by_when_some (find_cap depth (profile_at 640 400 30)) _ (P of_480) (nothing of_480)
              (λ d. by_when supported _ (P of_480) (nothing of_480) (λ _. preset_480 c d))) in
        let (second, second_720) =
          by_when_some (find_cap color (profile_at 1280 720 30)) _ (P of_720) (nothing of_720) (λ c.
            by_when_some (find_cap depth (profile_at 1280 800 30)) _ (P of_720) (nothing of_720)
              (λ d. preset_720 c d)) in
        Family-append all _ _ first second
          (Apart-Prefixed of_480 of_720 clash_presets _ _ first_480 second_720)
