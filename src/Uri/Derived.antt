-- ===== src/Uri/Derived.antt =====
-- The addresses that `parse_insight_uri` of backend/src/session_service.cpp takes, and
-- `rtsp_host_from_url` of backend/src/catalog.cpp on the addresses it is called with.
use insight_io.Base.{
  ◌≡◌, refl, sym, ◌∙◌, ap, ◌↔◌, inl, inr, false, none, some, ◌∷◌, ◌++◌, arith, Text, is_empty,
  Option-cases,
}
use mathlib.Core.Path.{subst}
use insight_io.Uri.{
  ParsedInsightUri, accepted, uri_prefix, path_of, derive_uri, derive_rtsp_url, check_selector,
  parse_path, parse_remainder, parse_insight_uri, rtsp_host_from_url,
}
use insight_io.Uri.Split.{
  contains, split_at, strip_prefix, strip_prefix-some, split_at-append, split_at-some,
}

-- A host and a device, not empty and without a slash, and a selector, not empty and without a
-- query or a fragment.
pub record WellFormed (p : ParsedInsightUri) : Type 0 where
  pub host_named : is_empty p.host ≡ false
  pub host_plain : contains b'/' p.host ≡ false
  pub device_named : is_empty p.device ≡ false
  pub device_plain : contains b'/' p.device ≡ false
  pub selector_named : is_empty p.selector ≡ false
  pub no_query : contains b'?' p.selector ≡ false
  pub no_fragment : contains b'#' p.selector ≡ false

derive_uri-path :
    (h d s : Text)
    → is_empty d ≡ false
    → is_empty s ≡ false
    → derive_uri h d s ≡ uri_prefix ++ path_of h d s
unfolding derive_uri
derive_uri-path h d s device selector = rw (device, selector) refl

check_selector-accepted :
    (p q : ParsedInsightUri)
    → check_selector p ≡ accepted q
    → (p ≡ q)
      × (is_empty p.device ≡ false)
      × (is_empty p.selector ≡ false)
      × (contains b'?' p.selector ≡ false)
      × (contains b'#' p.selector ≡ false)
unfolding check_selector
check_selector-accepted p q h = ground arith

-- What `parse_path` tests.
abbrev IsPath : ParsedInsightUri → Type 0
IsPath q =
    (contains b'/' q.device ≡ false)
    × (is_empty q.device ≡ false)
    × (is_empty q.selector ≡ false)
    × (contains b'?' q.selector ≡ false)
    × (contains b'#' q.selector ≡ false)

parse_path-accepted :
    (host t : Text) (q : ParsedInsightUri)
    → parse_path host t ≡ accepted q
    → (q.host ≡ host) × (t ≡ q.device ++ b'/' ∷ q.selector) × IsPath q
unfolding parse_path
parse_path-accepted host t q h = elim (Option-cases (split_at b'/' t)) [
  | inl e ↦ absurd (ground arith)
  | inr (p, e) ↦
      let (plain, joined) = split_at-some b'/' t p.0 p.1 e in
      let parsed : ParsedInsightUri = record { host = host; device = p.0; selector = p.1 } in
      let checked : check_selector parsed ≡ accepted q = ground arith in
      let (same, device_named, selector_named, no_query, no_fragment) =
        check_selector-accepted parsed q checked in
      (
        ap (λ (x : ParsedInsightUri). x.host) (sym same),
        joined ∙ ap (λ (x : ParsedInsightUri). x.device ++ b'/' ∷ x.selector) same,
        subst (λ x. IsPath x) same (plain, device_named, selector_named, no_query, no_fragment),
      )
]

parse_remainder-accepted :
    (t : Text) (q : ParsedInsightUri)
    → parse_remainder t ≡ accepted q
    → WellFormed q × (t ≡ path_of q.host q.device q.selector)
unfolding parse_remainder
parse_remainder-accepted t q h = elim (Option-cases (split_at b'/' t)) [
  | inl e ↦ absurd (ground arith)
  | inr (p, e) ↦
      let (plain, joined) = split_at-some b'/' t p.0 p.1 e in
      let checked : (is_empty p.0 ≡ false) × (parse_path p.0 p.1 ≡ accepted q) = ground arith in
      let (host, rest, path) = parse_path-accepted p.0 p.1 q checked.1 in
      let (device_plain, device_named, selector_named, no_query, no_fragment) = path in
      (
        record {
          host_named = rw host checked.0;
          host_plain = rw host plain;
          device_named = device_named;
          device_plain = device_plain;
          selector_named = selector_named;
          no_query = no_query;
          no_fragment = no_fragment;
        },
        joined ∙ ap (λ h. h ++ b'/' ∷ p.1) (sym host) ∙ ap (λ r. q.host ++ b'/' ∷ r) rest,
      )
]

parse_path-WellFormed :
    (p : ParsedInsightUri)
    → WellFormed p
    → parse_path p.host (p.device ++ b'/' ∷ p.selector) ≡ accepted p
unfolding parse_path check_selector
parse_path-WellFormed p w =
    let cut = split_at-append b'/' p.device p.selector w.device_plain in
    rw (cut, parse_path)
      (rw (w.device_named, w.selector_named) (rw (w.no_query, w.no_fragment) refl))

parse_remainder-split :
    (t a b : Text)
    → split_at b'/' t ≡ some (a, b)
    → is_empty a ≡ false
    → parse_remainder t ≡ parse_path a b
unfolding parse_remainder
parse_remainder-split t a b cut named = ground arith

parse_remainder-WellFormed :
    (p : ParsedInsightUri)
    → WellFormed p
    → parse_remainder (path_of p.host p.device p.selector) ≡ accepted p
parse_remainder-WellFormed p w =
    let cut = split_at-append b'/' p.host (p.device ++ b'/' ∷ p.selector) w.host_plain in
    parse_remainder-split (path_of p.host p.device p.selector) p.host
      (p.device ++ b'/' ∷ p.selector) cut w.host_named
    ∙ parse_path-WellFormed p w

-- `parse_insight_uri` reads back what `derive_uri` writes: an address derived from a host and a
-- device that are not empty and have no slash, and a selector that is not empty and has no `?` and
-- no `#`, is parsed into the three; and every address that it accepts is derived from three such
-- parts, the ones it returns.
pub parse_insight_uri-derive_uri :
    (t : Text) (p : ParsedInsightUri)
    → (parse_insight_uri t ≡ accepted p)
      ↔ (WellFormed p × (t ≡ derive_uri p.host p.device p.selector))
unfolding parse_insight_uri strip_prefix
parse_insight_uri-derive_uri t p = (
  λ h. elim (Option-cases (strip_prefix uri_prefix t)) [
    | inl e ↦ absurd (ground arith)
    | inr (rest, e) ↦
        let checked : parse_remainder rest ≡ accepted p = ground arith in
        let (w, joined) = parse_remainder-accepted rest p checked in
        (
          w,
          strip_prefix-some uri_prefix t rest e
              ∙ ap (λ r. uri_prefix ++ r) joined
              ∙ sym (derive_uri-path p.host p.device p.selector w.device_named w.selector_named),
        )
  ],
  λ (w, derived).
      rw (derived, derive_uri-path p.host p.device p.selector w.device_named w.selector_named)
        (parse_remainder-WellFormed p w),
)

-- The host of an RTSP address that is derived for a device and a stream with names is read back
-- from it, if the host has no slash.
pub rtsp_host_from_url-derive_rtsp_url :
    (h d s : Text)
    → contains b'/' h ≡ false
    → is_empty d ≡ false
    → is_empty s ≡ false
    → rtsp_host_from_url (derive_rtsp_url h d s) ≡ h
unfolding rtsp_host_from_url derive_rtsp_url strip_prefix
rtsp_host_from_url-derive_rtsp_url h d s plain device stream =
    let rest = path_of h d s in
    rw (device, stream)
      (ap (λ o. elim o as (λ _. Text) [ none ↦ rest | some (host, path) ↦ host ])
        (split_at-append b'/' h (d ++ b'/' ∷ s) plain))
