-- ===== src/Catalog/Refresh.antt =====
-- `CatalogService` of backend/src/catalog.cpp.
pub mod Named
pub mod Held
use insight_io.Base.{
  ℕ, suc, Bool, true, false, Option, none, some, List, [], ◌∷◌, ◌++◌, if◌then◌else◌, Text, codes,
  text_eq, ◌==◌,
}
use insight_io.Json.{JsonApi}
use insight_io.Types.{DeviceInfo, stable_device_key, kind_name, public_device_id_base}
use insight_io.Types.Slug.{slugify}
use insight_io.Uri.{path_of, uri_prefix, rtsp_prefix}
use insight_io.Catalog.Unique.{unique_public_name}
use insight_io.Catalog.Sources.{build_sources_for_device}
use insight_io.Catalog.Sources.Source.{CatalogSource}
use insight_io.Catalog.Sources.Orbbec.{OrbbecCatalogProbe}
use insight_io.Catalog.Tables.{CatalogDevice, Tables, Sqlite}
use insight_io.Catalog.Repository.{
  Connection, Failure, internal, replace_catalog, update_alias, update_source_alias,
}
use insight_io.Catalog.Repository.Load.{
  sort, name_before, make_stream_identity_key, find_name, existing_public_names_by_key,
  existing_source_public_names_by_key, load_devices, find_device,
}

-- What the discovery reports.
pub record DiscoveryResult : Type 0 where
  pub devices : List DeviceInfo
  pub errors : List Text

abbrev pub Names : Type 0
Names = List (Text × Text)

-- The name that is kept from before, or the default.
abbrev pub wanted_name : Text → Text → Names → Text
wanted_name key default_name existing = elim (find_name key existing) [
  | some name ↦ name
  | none ↦ default_name
]

-- What the service is built with: its hosts, and the probe of the Orbbec library.
pub record Config : Type 0 where
  pub uri_host : Text
  pub rtsp_host : Text
  pub probe : DeviceInfo → OrbbecCatalogProbe

module _ (J : JsonApi) (config : Config) where
  -- The publications of a source, with the address of its final name.
  unfoldable pub address_publications : Text → Text → J.Json → J.Json
  address_publications device_name source_name publications =
      let json = if J.is_object publications then publications else J.object [] in
      let found = if J.contains json (codes "rtsp") then J.at json (codes "rtsp") else none in
      let rtsp : J.Json = elim found [
        | none ↦ J.object []
        | some value ↦ if J.is_object value then value else J.object []
      ] in
      let url = J.text (rtsp_prefix ++ path_of config.rtsp_host device_name source_name) in
      let addressed = J.assign rtsp (codes "url") url in
      J.assign json (codes "rtsp") (
        if J.contains addressed (codes "profile")
        then addressed
        else J.assign addressed (codes "profile") (J.text (codes "default")))

  abbrev pub named_source : Text → Text → CatalogSource J → CatalogSource J
  named_source device_name name source = record source {
    default_name = source.selector;
    public_name = name;
    uri = uri_prefix ++ path_of config.uri_host device_name name;
    publications_json = address_publications device_name name source.publications_json;
  }

  -- The loop over the sources of a device, with `used_source_public_names`.
  unfoldable pub name_sources :
      Text → Text → Names → List (CatalogSource J) → List Text → List (CatalogSource J)
  name_sources key device_name existing [] used = []
  name_sources key device_name existing (source ∷ sources) used =
      let wanted =
        wanted_name (make_stream_identity_key key source.selector) source.selector existing in
      let (name, now_used) = unique_public_name wanted used in
      named_source device_name name source ∷ name_sources key device_name existing sources now_used

  abbrev pub source_before : CatalogSource J → CatalogSource J → Bool
  source_before s t = name_before s.public_name s.selector t.public_name t.selector

  abbrev pub metadata : DeviceInfo → Text → J.Json
  metadata raw default_name = J.object (
      (codes "default_name", J.text default_name)
      ∷ (codes "hardware_name", J.text raw.name)
      ∷ (codes "device_uri", J.text raw.uri)
      ∷ (codes "description", J.text raw.description)
      ∷ (codes "kind", J.text (kind_name raw.kind))
      ∷ (codes "usb_vendor_id", J.text raw.identity.usb_vendor_id)
      ∷ (codes "usb_product_id", J.text raw.identity.usb_product_id)
      ∷ (codes "usb_serial", J.text raw.identity.usb_serial)
      ∷ [])

  -- The entry of a device, once its names are chosen.
  unfoldable pub named_device : DeviceInfo → Text → Text → Names → CatalogDevice J
  named_device raw default_name public_name existing_sources =
      let key = stable_device_key raw.identity in
      let sources = build_sources_for_device J config.probe raw public_name config.rtsp_host in
      record {
        device_key = key;
        public_name = public_name;
        default_name = default_name;
        driver = kind_name raw.kind;
        status = codes "online";
        metadata_json = metadata raw default_name;
        sources = sort source_before (name_sources key public_name existing_sources sources []);
      }

  -- The loop over the devices, with `fallback_index`, `used_defaults` and `used_public_names`.
  unfoldable pub name_devices :
      Names → Names → List DeviceInfo → ℕ → List Text → List Text → List (CatalogDevice J)
  name_devices existing existing_sources [] fallback_index used_defaults used_public_names = []
  name_devices existing existing_sources (raw ∷ raws) fallback_index used_defaults used_names =
      let (default_name, now_defaults) =
        unique_public_name (public_device_id_base raw (suc fallback_index)) used_defaults in
      let wanted = wanted_name (stable_device_key raw.identity) default_name existing in
      let (public_name, now_names) = unique_public_name wanted used_names in
      named_device raw default_name public_name existing_sources
      ∷ name_devices existing existing_sources raws (suc fallback_index) now_defaults now_names

  -- The devices that `refresh` writes.
  unfoldable pub discovered : Sqlite → DiscoveryResult → Tables → List (CatalogDevice J)
  discovered db discovery t =
      name_devices (existing_public_names_by_key db t) (existing_source_public_names_by_key db t)
        discovery.devices 0 [] []

pub record CatalogService (J : JsonApi) : Type 0 where
  pub connection : Connection
  pub devices : List (CatalogDevice J)
  pub last_errors : List Text

-- What `set_alias` and `set_source_alias` answer.
pub data Answer (A : Type 0) : Type 0 where
  answered : A → Answer A
  refused : Failure → Answer A

module _ (J : JsonApi) (config : Config) (db : Sqlite) where
  unfoldable pub refresh : DiscoveryResult → ℕ → CatalogService J → Bool × CatalogService J
  refresh discovery now service =
      let devices = discovered J config db discovery service.connection.tables in
      let (replaced, connection) = replace_catalog J db now devices service.connection in
      if replaced
      then (
        true,
        record {
          connection = connection;
          devices = load_devices J db config.uri_host connection.tables;
          last_errors = discovery.errors;
        },
      )
      else (false, record service { connection = connection })

  unfoldable pub set_alias :
      Text → Text → ℕ → CatalogService J → Answer (CatalogDevice J) × CatalogService J
  set_alias current alias now service =
      let (failed, t) = update_alias db current alias now service.connection.tables in
      let written = record service { connection = record service.connection { tables = t } } in
      elim failed [
        | some f ↦ (refused f, service)
        | none ↦ elim (find_device J db config.uri_host (slugify alias) t) [
          | none ↦
              (refused (internal (codes "Alias updated but device could not be reloaded")), written)
          | some device ↦
              (answered device, record written { devices = load_devices J db config.uri_host t })
        ]
      ]

  unfoldable pub find_source : ℕ → List (CatalogSource J) → Option (CatalogSource J)
  find_source stream_id [] = none
  find_source stream_id (s ∷ sources) =
      let rest = find_source stream_id sources in if s.stream_id == stream_id then some s else rest

  unfoldable pub find_source_in : ℕ → List (CatalogDevice J) → Option (CatalogSource J)
  find_source_in stream_id [] = none
  find_source_in stream_id (d ∷ devices) = elim (find_source stream_id d.sources) [
    | some s ↦ some s
    | none ↦ find_source_in stream_id devices
  ]

  unfoldable pub set_source_alias :
      ℕ → Text → ℕ → CatalogService J → Answer (CatalogSource J) × CatalogService J
  set_source_alias stream_id alias now service =
      let (failed, t) = update_source_alias db stream_id alias now service.connection.tables in
      let written = record service { connection = record service.connection { tables = t } } in
      let refreshed = load_devices J db config.uri_host t in
      elim failed [
        | some f ↦ (refused f, service)
        | none ↦ elim (find_source_in stream_id refreshed) [
          | none ↦ (
            refused (internal (codes "Stream alias updated but source could not be reloaded")),
            written,
          )
          | some source ↦ (answered source, record written { devices = refreshed })
        ]
      ]

unfoldable pub get_device : (J : JsonApi) → Text → List (CatalogDevice J) → Option (CatalogDevice J)
get_device J public_name [] = none
get_device J public_name (d ∷ devices) =
    let rest = get_device J public_name devices in
    if text_eq d.public_name public_name then some d else rest
