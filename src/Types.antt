-- ===== src/Types.antt =====
-- backend/include/insightio/backend/types.hpp and backend/src/types.cpp: capabilities, names and
-- stable identities. `normalize_stream_public_name` is of backend/src/catalog.cpp.
pub mod Decimal
pub mod Slug
pub mod Names
use insight_io.Base.{
  ℕ, zero, suc, ◌+◌, ◌-◌, ◌*◌, ◌/◌, ◌%◌, Bool, true, false, not, ◌&&◌, ◌||◌, Option, none, some,
  List, [], ◌∷◌, ◌++◌, ltb, leb, ◌==◌, if◌then◌else◌, u64_mod, Text, codes, text_eq, is_empty,
}
use Prim.Native.Nat.{bit_xor}
use mathlib.Core.Option

pub data DeviceKind : Type 0 where
  v4l2 pipe_wire orbbec : DeviceKind

pub data DataKind : Type 0 where
  frame message : DataKind

pub record ResolvedCaps : Type 0 where
  pub index : ℕ
  pub format : Text
  pub width : ℕ
  pub height : ℕ
  pub fps : ℕ

pub record StreamInfo : Type 0 where
  pub stream_id : Text
  pub name : Text
  pub data_kind : DataKind
  pub supported_caps : List ResolvedCaps

pub record DeviceIdentity : Type 0 where
  pub device_uri : Text
  pub device_id : Text
  pub kind_str : Text
  pub hardware_name : Text
  pub persistent_key : Text
  pub usb_vendor_id : Text
  pub usb_product_id : Text
  pub usb_serial : Text

pub record DeviceInfo : Type 0 where
  pub uri : Text
  pub kind : DeviceKind
  pub name : Text
  pub streams : List StreamInfo
  pub identity : DeviceIdentity
  pub description : Text

-- A chain of `==` joined by `||`.
unfoldable pub one_of : Text → List Text → Bool
one_of t [] = false
one_of t (s ∷ ss) = text_eq t s || one_of t ss

abbrev audio_formats : List Text
audio_formats =
    codes "s16le"
    ∷ codes "s24le"
    ∷ codes "s32le"
    ∷ codes "f32le"
    ∷ codes "s16be"
    ∷ codes "s24be"
    ∷ codes "s32be"
    ∷ codes "f32be"
    ∷ codes "u8"
    ∷ codes "mp3"
    ∷ codes "aac"
    ∷ codes "opus"
    ∷ []

unfoldable pub is_audio_format : Text → Bool
is_audio_format format = one_of format audio_formats

unfoldable pub is_compressed_audio : Text → Bool
is_compressed_audio format =
    one_of format (codes "mp3" ∷ codes "aac" ∷ codes "opus" ∷ codes "flac" ∷ [])

unfoldable pub is_compressed_video : Text → Bool
is_compressed_video format = one_of format (
    codes "mjpeg"
    ∷ codes "jpeg"
    ∷ codes "h264"
    ∷ codes "h265"
    ∷ codes "hevc"
    ∷ codes "vp8"
    ∷ codes "vp9"
    ∷ codes "av1"
    ∷ [])

unfoldable pub is_depth_format : Text → Bool
is_depth_format format = one_of format (codes "y16" ∷ codes "z16" ∷ codes "gray16" ∷ [])

unfoldable pub is_audio : ResolvedCaps → Bool
is_audio caps = caps.fps == 0 && is_audio_format caps.format

unfoldable pub sample_rate : ResolvedCaps → ℕ
sample_rate caps = if is_audio caps then caps.width else 0

unfoldable pub channels : ResolvedCaps → ℕ
channels caps = if is_audio caps then caps.height else 0

unfoldable pub to_named : ResolvedCaps → Text
to_named caps =
    let name =
      caps.format
      ++ codes "_"
      ++ Decimal.to_string caps.width
      ++ codes "x"
      ++ Decimal.to_string caps.height in
    if ltb 0 caps.fps then name ++ codes "_" ++ Decimal.to_string caps.fps else name

unfoldable pub kind_name : DeviceKind → Text
kind_name v4l2 = codes "v4l2"
kind_name pipe_wire = codes "pipewire"
kind_name orbbec = codes "orbbec"

-- The rounds of the loop of `fnv1a64` over the bytes that are left.
unfoldable pub fnv1a64 : Text → ℕ → ℕ
fnv1a64 [] hash = hash
fnv1a64 (c ∷ input) hash = fnv1a64 input (bit_xor hash c * 1099511628211 % u64_mod)

unfoldable pub stable_identity_key : DeviceIdentity → Text
stable_identity_key identity =
    let line = codes "\n" in
    let ids = identity.usb_vendor_id ++ line ++ identity.usb_product_id ++ line in
    identity.kind_str
    ++ line
    ++ (if not (is_empty identity.persistent_key)
        then identity.persistent_key
        else if not (is_empty identity.usb_serial)
        then ids ++ identity.usb_serial
        else ids
          ++ identity.device_id
          ++ line
          ++ identity.device_uri
          ++ (if is_empty identity.hardware_name then [] else line ++ identity.hardware_name))

-- `std::hex` with `setfill('0')` and `setw(16)`: sixteen digits of a 64-bit word.
abbrev hex_digit : ℕ → ℕ
hex_digit d = if ltb d 10 then b'0' + d else b'a' + (d - 10)

unfoldable pub hex_digits : ℕ → ℕ → Text → Text
hex_digits zero n rest = rest
hex_digits (suc width) n rest = hex_digits width (n / 16) (hex_digit (n % 16) ∷ rest)

unfoldable pub hex_identifier : Text → ℕ → ℕ → Text
hex_identifier prefix high low = prefix ++ hex_digits 16 high [] ++ hex_digits 16 low []

unfoldable pub stable_device_key : DeviceIdentity → Text
stable_device_key identity =
    let key = stable_identity_key identity in
    hex_identifier (codes "dev_") (fnv1a64 key 0xcbf2_9ce4_8422_2325)
      (fnv1a64 key 0x9e37_79b1_85eb_ca87)

-- `device.name.find(':')` and the `substr` before it, if there is a colon.
unfoldable pub before_colon : Text → Option Text
before_colon [] = none
before_colon (c ∷ s) =
    let rest = before_colon s in if c == b':' then some [] else Option.map (λ t. c ∷ t) rest

-- `if (base.empty()) base = slugify(text);`
abbrev pub or_slug : Text → Text → Text
or_slug base text = if is_empty base then Slug.slugify text else base

-- The `base` of `public_device_id_base` before its last test.
unfoldable pub device_name_base : DeviceInfo → Text
unfolding before_colon
device_name_base device =
    let prefix : Text = elim (before_colon device.name) [ none ↦ [] | some t ↦ Slug.slugify t ] in
    or_slug (or_slug (or_slug prefix device.name) device.identity.hardware_name)
      device.identity.device_id

unfoldable pub public_device_id_base : DeviceInfo → ℕ → Text
public_device_id_base device fallback_index =
    if not (is_empty (device_name_base device))
    then device_name_base device
    else if ltb 0 fallback_index
    then codes "device-" ++ Decimal.to_string fallback_index
    else codes "device"

unfoldable pub default_stream_name : DeviceKind → Text → Text
default_stream_name v4l2 stream_id =
    if text_eq stream_id (codes "image") then codes "frame" else stream_id
default_stream_name kind stream_id = stream_id
