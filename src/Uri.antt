-- ===== src/Uri.antt =====
-- The addresses of streams: `derive_uri`, `derive_rtsp_url`, `parse_insight_uri` and
-- `validate_local_uri_host` of backend/src/session_service.cpp, and `rtsp_host_from_url` of
-- backend/src/catalog.cpp.
pub mod Split
pub mod Derived
use insight_io.Base.{
  Bool, true, false, ◌||◌, Option, none, some, [], ◌∷◌, ◌++◌, if◌then◌else◌, Text, codes, text_eq,
  is_empty, Result, ok, err,
}
use insight_io.Uri.Split.{contains, split_at, strip_prefix}

pub record ParsedInsightUri : Type 0 where
  pub host : Text
  pub device : Text
  pub selector : Text

-- What `parse_insight_uri` leaves to its caller.
pub data UriResult : Type 0 where
  accepted : ParsedInsightUri → UriResult
  rejected : Text → UriResult

abbrev pub uri_prefix : Text
uri_prefix = codes "insightos://"

abbrev pub rtsp_prefix : Text
rtsp_prefix = codes "rtsp://"

-- `host + "/" + public_name + "/" + stream_public_name`
abbrev pub path_of : Text → Text → Text → Text
path_of host public_name stream_public_name =
    host ++ b'/' ∷ (public_name ++ b'/' ∷ stream_public_name)

unfoldable pub derive_uri : Text → Text → Text → Text
derive_uri uri_host public_name stream_public_name =
    if is_empty public_name || is_empty stream_public_name
    then []
    else uri_prefix ++ path_of uri_host public_name stream_public_name

unfoldable pub derive_rtsp_url : Text → Text → Text → Text
derive_rtsp_url rtsp_host public_name stream_public_name =
    if is_empty public_name || is_empty stream_public_name
    then []
    else rtsp_prefix ++ path_of rtsp_host public_name stream_public_name

-- The tests on the selector, once the host and the device are split off.
unfoldable pub check_selector : ParsedInsightUri → UriResult
check_selector parsed =
    if is_empty parsed.device || is_empty parsed.selector
    then rejected (codes "Input must include both device and selector")
    else if contains b'?' parsed.selector || contains b'#' parsed.selector
    then rejected (codes "Input selector must not include query or fragment components")
    else accepted parsed

-- `second_slash` is none, the first character or the last one.
unfoldable pub parse_path : Text → Text → UriResult
parse_path host device_and_selector =
    let message = codes "Input must include both device and selector path segments" in
    elim (split_at b'/' device_and_selector) [
      | none ↦ rejected message
      | some (device, selector) ↦
          if is_empty device || is_empty selector
          then rejected message
          else check_selector (record { host = host; device = device; selector = selector })
    ]

unfoldable pub parse_remainder : Text → UriResult
parse_remainder remainder =
    let message = codes "Input must include host, device, and selector" in
    elim (split_at b'/' remainder) [
      | none ↦ rejected message
      | some (host, device_and_selector) ↦
          if is_empty host then rejected message else parse_path host device_and_selector
    ]

unfoldable pub parse_insight_uri : Text → UriResult
parse_insight_uri input = elim (strip_prefix uri_prefix input) [
  | none ↦ rejected (codes "Input must use the insightos:// scheme")
  | some remainder ↦ parse_remainder remainder
]

-- The status is 422.
unfoldable pub validate_local_uri_host : Text → Text → Result (Unit {0})
validate_local_uri_host actual_host expected_host =
    if text_eq actual_host expected_host
    then ok tt
    else err (record {
      code = codes "invalid_input";
      message =
          codes "Input URI host must match the local catalog host '" ++ expected_host ++ codes "'";
    })

unfoldable pub rtsp_host_from_url : Text → Text
rtsp_host_from_url url = elim (strip_prefix rtsp_prefix url) [
  | none ↦ []
  | some rest ↦ elim (split_at b'/' rest) [ none ↦ rest | some (host, path) ↦ host ]
]
