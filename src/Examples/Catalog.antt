-- ===== src/Examples/Catalog.antt =====
-- Runs of the catalog: a camera, and the row of another one that was unplugged.
use insight_io.Base.{
  ℕ, ◌≡◌, refl, ◌⊎◌, ◌↔◌, true, false, none, some, [], ◌∷◌, Text, codes, text_eq, text_eq_refl,
}
use insight_io.Types.{
  ResolvedCaps, StreamInfo, frame, DeviceInfo, v4l2, one_of, stable_device_key, hex_identifier,
  public_device_id_base, device_name_base, before_colon,
}
use insight_io.Uri.{
  ParsedInsightUri, accepted, parse_insight_uri, derive_uri, derive_rtsp_url, rtsp_host_from_url,
}
use insight_io.Uri.Split.{contains}
use insight_io.Uri.Derived.{
  WellFormed, parse_insight_uri-derive_uri, rtsp_host_from_url-derive_rtsp_url,
}
use insight_io.Catalog.Unique.{candidate, unique_public_name, FirstFree, unique_public_name-least}
use insight_io.Catalog.Profiles.{Profile, find}
use insight_io.Catalog.Caps.{contains_cap, find_cap, choose_video_caps_by_profile}
use insight_io.Catalog.Caps.Best.{IsBest, choose_video_caps_by_profile-IsBest}
use insight_io.Catalog.Sources.{build_sources_for_device}
use insight_io.Catalog.Sources.Apart.{AllDistinct}
use insight_io.Catalog.Sources.Families.{selectors}
use insight_io.Catalog.Sources.Distinct.{build_sources_for_device-AllDistinct}
use insight_io.Catalog.Sources.Orbbec.{OrbbecCatalogProbe}
use insight_io.Catalog.Tables.{DeviceRow, Tables, Sqlite, name_held}
use insight_io.Catalog.Repository.{Connection, update_alias}
use insight_io.Catalog.Repository.Alias.{Outcome, update_alias-Outcome}
use insight_io.Catalog.Repository.Load.{existing_public_names_by_key, find_name}
use insight_io.Catalog.Refresh.{DiscoveryResult, Config, CatalogService, discovered, refresh}
use insight_io.Catalog.Refresh.Named.{
  public_names, default_names, SourcesNamed, Known, discovered-distinct, discovered-kept,
}
use insight_io.Catalog.Refresh.Held.{refresh-held}
use insight_io.Examples.Values.{values}
use insight_io.Types.Slug.{slugify}

abbrev pub address : ParsedInsightUri
address = record { host = codes "localhost"; device = codes "cam"; selector = codes "720p_30" }

parse_insight_uri-derive_uri_example :
    (parse_insight_uri (codes "insightos://localhost/cam/720p_30") ≡ accepted address) ↔ (
      WellFormed address
      × (codes "insightos://localhost/cam/720p_30"
          ≡ derive_uri address.host address.device address.selector))
parse_insight_uri-derive_uri_example =
    parse_insight_uri-derive_uri (codes "insightos://localhost/cam/720p_30") address

rtsp_host_from_url-derive_rtsp_url_example :
    rtsp_host_from_url (derive_rtsp_url (codes "127.0.0.1:8554") (codes "cam") (codes "720p_30"))
    ≡ codes "127.0.0.1:8554"
unfolding contains
rtsp_host_from_url-derive_rtsp_url_example =
    rtsp_host_from_url-derive_rtsp_url (codes "127.0.0.1:8554") (codes "cam") (codes "720p_30") refl
      refl refl

unique_public_name-least_example :
    let used = codes "cam" ∷ codes "cam-1" ∷ [] in
    let name = codes "cam" in
    ((one_of name used ≡ false) × (unique_public_name name used ≡ (name, name ∷ used)))
    ⊎ ((one_of name used ≡ true)
        × ((k : ℕ) × FirstFree name 1 used k
            × (unique_public_name name used ≡ (candidate name k, candidate name k ∷ used))))
unique_public_name-least_example =
    unique_public_name-least (codes "cam") (codes "cam" ∷ codes "cam-1" ∷ [])

abbrev pub cap : Text → ResolvedCaps
cap format = record { index = 0; format = format; width = 640; height = 480; fps = 30 }

abbrev pub image : StreamInfo
image = record {
  stream_id = codes "image";
  name = codes "Image";
  data_kind = frame;
  supported_caps = cap (codes "yuyv") ∷ cap (codes "mjpeg") ∷ [];
}

abbrev vga : Profile
vga = record { width = 640; height = 480; fps = 30 }

choose_video_caps_by_profile-IsBest_example :
    ((contains_cap image vga ≡ false)
      × (find_cap image vga ≡ none)
      × (find vga (choose_video_caps_by_profile image) ≡ none))
    ⊎ ((best : ResolvedCaps) × (find_cap image vga ≡ some best)
        × (find vga (choose_video_caps_by_profile image) ≡ some best)
        × IsBest vga image.supported_caps best)
choose_video_caps_by_profile-IsBest_example = choose_video_caps_by_profile-IsBest image vga

abbrev pub camera : DeviceInfo
camera = record {
  uri = codes "v4l2:/dev/video0";
  kind = v4l2;
  name = codes "Cam: USB";
  streams = image ∷ [];
  identity = record {
    device_uri = codes "v4l2:/dev/video0";
    device_id = codes "video0";
    kind_str = codes "v4l2";
    hardware_name = [];
    persistent_key = codes "usb-1";
    usb_vendor_id = [];
    usb_product_id = [];
    usb_serial = [];
  };
  description = [];
}

abbrev probe : DeviceInfo → OrbbecCatalogProbe
probe device = record { probe_ran = false; supports_hw_d2c_480 = false }

build_sources_for_device-AllDistinct_example : AllDistinct (
    selectors values
      (build_sources_for_device values probe camera (codes "cam") (codes "127.0.0.1:8554")))
build_sources_for_device-AllDistinct_example =
    build_sources_for_device-AllDistinct values camera (codes "cam") (codes "127.0.0.1:8554") probe

abbrev config : Config
config = record { uri_host = codes "localhost"; rtsp_host = codes "127.0.0.1:8554"; probe = probe }

abbrev db : Sqlite
db = record { prepares = λ _. true; runs = λ _ _. true; next_id = λ ids. 7 }

abbrev gone : DeviceRow
gone = record {
  device_id = 1;
  device_key = codes "old_camera";
  public_name = codes "cam";
  driver = codes "v4l2";
  status = codes "offline";
  metadata_json = [];
  last_seen_at_ms = 0;
  created_at_ms = 0;
  updated_at_ms = 0;
}

abbrev tables : Tables
tables = record { devices = gone ∷ []; streams = [] }

abbrev discovery : DiscoveryResult
discovery = record { devices = camera ∷ []; errors = [] }

discovered-distinct_example :
    AllDistinct (public_names values (discovered values config db discovery tables))
    × AllDistinct (default_names values (discovered values config db discovery tables))
    × SourcesNamed values (discovered values config db discovery tables)
discovered-distinct_example = discovered-distinct values config db discovery tables

abbrev known_tables : Tables
known_tables = record {
  devices =
      record gone { device_key = stable_device_key camera.identity; public_name = codes "desk" }
      ∷ [];
  streams = [];
}

known : Known (existing_public_names_by_key db known_tables) (camera ∷ []) (codes "desk" ∷ [])
unfolding existing_public_names_by_key find_name
known = (rw (text_eq_refl (stable_device_key camera.identity)) refl, refl, tt)

discovered-kept_example :
    public_names values (discovered values config db discovery known_tables) ≡ codes "desk" ∷ []
unfolding one_of
discovered-kept_example =
    discovered-kept values config db discovery known_tables (codes "desk" ∷ []) known (refl, tt)

abbrev connection : Connection
connection = record { tables = tables; saved = none }

abbrev service : CatalogService values
service = record { connection = connection; devices = []; last_errors = [] }

other_key : text_eq (codes "old_camera") (stable_device_key camera.identity) ≡ false
unfolding text_eq stable_device_key hex_identifier
other_key = refl

called : public_device_id_base camera 1 ≡ codes "cam"
unfolding public_device_id_base device_name_base before_colon slugify
called = refl

unknown :
    find_name (stable_device_key camera.identity) (existing_public_names_by_key db tables) ≡ none
unfolding existing_public_names_by_key find_name
unknown = rw other_key refl

held :
    name_held (stable_device_key camera.identity) (public_device_id_base camera 1) tables.devices
    ≡ true
unfolding name_held text_eq
held = rw (other_key, called) refl

refresh-held_example :
    ((refresh values config db discovery 5 service).0 ≡ false)
    × ((refresh values config db discovery 5 service).1.connection.tables ≡ tables)
    × ((refresh values config db discovery 5 service).1.devices ≡ [])
refresh-held_example =
    refresh-held values config db discovery 5 service camera [] refl unknown held refl (λ t. refl)

abbrev online : Tables
online = record { devices = record gone { status = codes "online" } ∷ []; streams = [] }

update_alias-Outcome_example :
    Outcome
      (codes "cam")
      (slugify (codes "Front Door"))
      9
      online
      (update_alias db (codes "cam") (codes "Front Door") 9 online)
update_alias-Outcome_example = update_alias-Outcome db (codes "cam") (codes "Front Door") 9 online
