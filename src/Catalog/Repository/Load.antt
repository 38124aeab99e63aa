-- ===== src/Catalog/Repository/Load.antt =====
-- `load_devices`, `load_sources` and `find_device` of `CatalogRepository` of
-- backend/src/catalog.cpp, and the names that it reads for a refresh.
use insight_io.Base.{
  ℕ, Bool, true, false, not, ◌&&◌, ◌||◌, Option, none, some, List, [], ◌∷◌, ◌++◌, map, ltb, ◌==◌,
  if◌then◌else◌, Text, codes, text_eq, is_empty,
}
use insight_io.Json.{JsonApi}
use insight_io.Uri.{path_of, uri_prefix, rtsp_prefix, rtsp_host_from_url}
use insight_io.Catalog.Sources.Source.{CatalogSource}
use insight_io.Catalog.Tables.{
  CatalogDevice, DeviceRow, StreamRow, Tables, select_names, select_source_names, select_devices,
  select_device, select_sources, Sqlite, works,
}
use insight_io.Catalog.Repository.{find_online}

-- `<` on text, byte by byte.
unfoldable pub text_less : Text → Text → Bool
text_less [] [] = false
text_less [] (b ∷ t) = true
text_less (a ∷ s) [] = false
text_less (a ∷ s) (b ∷ t) = let rest = text_less s t in ltb a b || (a == b && rest)

-- Sorting: an element goes before the first one that it is less than.
module _ {ℓ} {A : Type ℓ} (less : A → A → Bool) where
  unfoldable pub insert_sorted : A → List A → List A
  insert_sorted a [] = a ∷ []
  insert_sorted a (b ∷ l) = let rest = insert_sorted a l in if less a b then a ∷ b ∷ l else b ∷ rest

  unfoldable pub sort : List A → List A
  sort [] = []
  sort (a ∷ l) = insert_sorted a (sort l)

-- `std::tie(lhs.public_name, lhs.selector) < std::tie(rhs.public_name, rhs.selector)`
abbrev pub name_before : Text → Text → Text → Text → Bool
name_before name selector other_name other_selector =
    text_less name other_name || (text_eq name other_name && text_less selector other_selector)

abbrev pub row_before : StreamRow → StreamRow → Bool
row_before r s = name_before r.public_name r.selector s.public_name s.selector

abbrev pub device_before : DeviceRow → DeviceRow → Bool
device_before r s = text_less r.public_name s.public_name

abbrev pub text_of : Option Text → Text
text_of none = []
text_of (some t) = t

-- `WHERE status != 'offline'`
unfoldable pub online_rows : List DeviceRow → List DeviceRow
online_rows [] = []
online_rows (r ∷ rows) =
    let rest = online_rows rows in if text_eq r.status (codes "offline") then rest else r ∷ rest

-- `WHERE device_id = ? AND is_present = 1`
unfoldable pub present_rows : ℕ → List StreamRow → List StreamRow
present_rows device_id [] = []
present_rows device_id (r ∷ rows) =
    let rest = present_rows device_id rows in
    if (r.device_id == device_id) && r.is_present then r ∷ rest else rest

-- The pairs of `existing_public_names_by_key`.
abbrev pub names_of : List DeviceRow → List (Text × Text)
names_of [] = []
names_of (r ∷ rows) = (r.device_key, r.public_name) ∷ names_of rows

abbrev pub make_stream_identity_key : Text → Text → Text
make_stream_identity_key device_key selector = device_key ++ codes "\n" ++ selector

-- The rows of a device joined with their device.
abbrev pub source_names_of_device : DeviceRow → List StreamRow → List (Text × Text)
source_names_of_device d [] = []
source_names_of_device d (r ∷ rows) =
    let rest = source_names_of_device d rows in
    if r.device_id == d.device_id
    then (make_stream_identity_key d.device_key r.selector, r.public_name) ∷ rest
    else rest

abbrev pub source_names_of : List DeviceRow → List StreamRow → List (Text × Text)
source_names_of [] streams = []
source_names_of (d ∷ devices) streams =
    source_names_of_device d streams ++ source_names_of devices streams

-- `find` in a map that `emplace` fills: the first entry of a key stays.
unfoldable pub find_name : Text → List (Text × Text) → Option Text
find_name key [] = none
find_name key ((k, name) ∷ names) =
    let rest = find_name key names in if text_eq k key then some name else rest

unfoldable pub existing_public_names_by_key : Sqlite → Tables → List (Text × Text)
existing_public_names_by_key db t = if works db select_names t then names_of t.devices else []

unfoldable pub existing_source_public_names_by_key : Sqlite → Tables → List (Text × Text)
existing_source_public_names_by_key db t =
    if works db select_source_names t then source_names_of t.devices t.streams else []

module _ (J : JsonApi) where
  unfoldable pub parse_json : Text → J.Json
  parse_json text =
      if is_empty text
      then J.object []
      else elim (J.parse text) [ none ↦ J.object [] | some value ↦ value ]

  -- The RTSP address of a source that is read back, moved to the names of now.
  unfoldable pub refresh_url : Text → Text → J.Json → J.Json
  refresh_url public_name source_name publications =
      if not (J.contains publications (codes "rtsp"))
      then publications
      else elim (J.at publications (codes "rtsp")) [
        | none ↦ publications
        | some rtsp ↦
            elim (if J.contains rtsp (codes "url") then J.at rtsp (codes "url") else none) [
              | none ↦ publications
              | some url ↦
                  let host = rtsp_host_from_url (J.string_of url) in
                  if J.is_string url && not (is_empty host)
                  then J.assign publications (codes "rtsp") (
                      J.assign rtsp (codes "url")
                        (J.text (rtsp_prefix ++ path_of host public_name source_name)))
                  else publications
            ]
      ]

  unfoldable pub load_source : Text → Text → StreamRow → CatalogSource J
  load_source uri_host public_name r = record {
    stream_id = r.stream_id;
    selector = r.selector;
    public_name = r.public_name;
    default_name = r.selector;
    uri = uri_prefix ++ path_of uri_host public_name r.public_name;
    media_kind = r.media_kind;
    shape_kind = r.shape_kind;
    channel = text_of r.channel;
    group_key = text_of r.group_key;
    caps_json = parse_json r.caps_json;
    capture_policy_json = parse_json (text_of r.capture_policy_json);
    members_json = parse_json (text_of r.members_json);
    publications_json = refresh_url public_name r.public_name (parse_json r.publications_json);
  }

  unfoldable pub load_sources : Sqlite → Text → ℕ → Text → Tables → List (CatalogSource J)
  load_sources db uri_host device_id public_name t =
      if works db select_sources t
      then map (load_source uri_host public_name)
          (sort row_before (present_rows device_id t.streams))
      else []

  unfoldable pub load_device : Sqlite → Text → Tables → DeviceRow → CatalogDevice J
  load_device db uri_host t r =
      let metadata = parse_json r.metadata_json in
      record {
        device_key = r.device_key;
        public_name = r.public_name;
        driver = r.driver;
        status = r.status;
        metadata_json = metadata;
        default_name = J.value_text metadata (codes "default_name") [];
        sources = load_sources db uri_host r.device_id r.public_name t;
      }

  unfoldable pub load_devices : Sqlite → Text → Tables → List (CatalogDevice J)
  load_devices db uri_host t =
      if works db select_devices t
      then map (load_device db uri_host t) (sort device_before (online_rows t.devices))
      else []

  unfoldable pub find_device : Sqlite → Text → Text → Tables → Option (CatalogDevice J)
  find_device db uri_host public_name t =
      if works db select_device t
      then elim (find_online public_name t.devices) [
        | none ↦ none
        | some r ↦ some (load_device db uri_host t r)
      ]
      else none
