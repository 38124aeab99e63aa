-- ===== src/Catalog/Tables.antt =====
-- The tables `devices` and `streams` of backend/schema/001_initial.sql, and the statements of
-- `CatalogRepository` of backend/src/catalog.cpp that write them.
use insight_io.Base.{
  ℕ, Bool, true, false, not, ◌&&◌, ◌||◌, Option, none, some, List, [], ◌∷◌, map, ◌==◌,
  if◌then◌else◌, Text, codes, text_eq, is_empty,
}
use insight_io.Json.{JsonApi}
use insight_io.Types.{one_of}
use insight_io.Catalog.Sources.Source.{CatalogSource}

pub record CatalogDevice (J : JsonApi) : Type 0 where
  pub device_key : Text
  pub public_name : Text
  pub default_name : Text
  pub driver : Text
  pub status : Text
  pub metadata_json : J.Json
  pub sources : List (CatalogSource J)

pub record DeviceRow : Type 0 where
  pub device_id : ℕ
  pub device_key : Text
  pub public_name : Text
  pub driver : Text
  pub status : Text
  pub metadata_json : Text
  pub last_seen_at_ms : ℕ
  pub created_at_ms : ℕ
  pub updated_at_ms : ℕ

pub record StreamRow : Type 0 where
  pub stream_id : ℕ
  pub device_id : ℕ
  pub selector : Text
  pub public_name : Text
  pub media_kind : Text
  pub shape_kind : Text
  pub channel : Option Text
  pub group_key : Option Text
  pub caps_json : Text
  pub capture_policy_json : Option Text
  pub members_json : Option Text
  pub publications_json : Text
  pub is_present : Bool
  pub created_at_ms : ℕ
  pub updated_at_ms : ℕ

pub record Tables : Type 0 where
  pub devices : List DeviceRow
  pub streams : List StreamRow

-- The statements that the repository gives to the database.
pub data Statement : Type 0 where
  begin_transaction rollback commit : Statement
  mark_devices mark_streams upsert_device_row upsert_stream_row : Statement
  select_device_id select_names select_source_names select_devices select_device : Statement
  select_sources find_alias conflict_alias write_alias : Statement
  find_source_alias conflict_source_alias write_source_alias : Statement

-- The database engine: whether it prepares a statement and whether it runs it, apart from the
-- constraints of the schema, and the key of a new row, given the keys that are taken.
pub record Sqlite : Type 0 where
  pub prepares : Statement → Bool
  pub runs : Statement → Tables → Bool
  pub next_id : List ℕ → ℕ

abbrev pub works : Sqlite → Statement → Tables → Bool
works db statement t = db.prepares statement && db.runs statement t

-- `bind_text_or_null`
abbrev pub text_or_null : Text → Option Text
text_or_null t = if is_empty t then none else some t

-- Whether a row of another device has the name, which `UNIQUE (public_name)` forbids.
unfoldable pub name_held : Text → Text → List DeviceRow → Bool
name_held key name [] = false
name_held key name (r ∷ rows) =
    (not (text_eq r.device_key key) && text_eq r.public_name name) || name_held key name rows

-- `ON CONFLICT(device_key) DO UPDATE`: the row with the key is changed, or the new one appended.
unfoldable pub put_device :
    Text → (DeviceRow → DeviceRow) → DeviceRow → List DeviceRow → List DeviceRow
put_device key change new [] = new ∷ []
put_device key change new (r ∷ rows) =
    let rest = put_device key change new rows in
    if text_eq r.device_key key then change r ∷ rows else r ∷ rest

abbrev pub device_ids : List DeviceRow → List ℕ
device_ids [] = []
device_ids (r ∷ rows) = r.device_id ∷ device_ids rows

abbrev pub stream_ids : List StreamRow → List ℕ
stream_ids [] = []
stream_ids (r ∷ rows) = r.stream_id ∷ stream_ids rows

-- The test of `UNIQUE (device_id, selector)`, which names the row of a source.
abbrev pub is_source : ℕ → Text → StreamRow → Bool
is_source device_id selector r = r.device_id == device_id && text_eq r.selector selector

-- Whether another row of the device has the name, which `UNIQUE (device_id, public_name)` forbids.
unfoldable pub source_name_held : ℕ → Text → Text → List StreamRow → Bool
source_name_held device_id selector name [] = false
source_name_held device_id selector name (r ∷ rows) =
    ((r.device_id == device_id) && not (text_eq r.selector selector) && text_eq r.public_name name)
    || source_name_held device_id selector name rows

unfoldable pub put_source :
    ℕ → Text → (StreamRow → StreamRow) → StreamRow → List StreamRow → List StreamRow
put_source device_id selector change new [] = new ∷ []
put_source device_id selector change new (r ∷ rows) =
    let rest = put_source device_id selector change new rows in
    if is_source device_id selector r then change r ∷ rows else r ∷ rest

unfoldable pub mark_all_offline : Sqlite → ℕ → Tables → Bool × Tables
mark_all_offline db timestamp t =
    let offline : DeviceRow → DeviceRow =
      λ r. record r { status = codes "offline"; updated_at_ms = timestamp } in
    let absent : StreamRow → StreamRow =
      λ r. record r { is_present = false; updated_at_ms = timestamp } in
    let marked = record t { devices = map offline t.devices } in
    if not (works db mark_devices t)
    then (false, t)
    else if not (works db mark_streams marked)
    then (false, marked)
    else (true, record marked { streams = map absent t.streams })

unfoldable pub find_device_id : Text → List DeviceRow → Option ℕ
find_device_id key [] = none
find_device_id key (r ∷ rows) =
    let rest = find_device_id key rows in
    if text_eq r.device_key key then some r.device_id else rest

unfoldable pub lookup_device_id : Sqlite → Text → Tables → Option ℕ
lookup_device_id db key t =
    if works db select_device_id t then find_device_id key t.devices else none

module _ (J : JsonApi) where
  -- `bind_json_or_null`: an object or an array without members is bound as null too.
  abbrev pub json_or_null : J.Json → Option Text
  json_or_null value = if J.is_empty value then none else some (J.dump value)

  -- The row that `upsert_device` inserts.
  abbrev pub device_row : Sqlite → CatalogDevice J → ℕ → Tables → DeviceRow
  device_row db device timestamp t = record {
    device_id = db.next_id (device_ids t.devices);
    device_key = device.device_key;
    public_name = device.public_name;
    driver = device.driver;
    status = codes "online";
    metadata_json = J.dump device.metadata_json;
    last_seen_at_ms = timestamp;
    created_at_ms = timestamp;
    updated_at_ms = timestamp;
  }

  -- What it changes in a row that is there.
  abbrev pub change_device : CatalogDevice J → ℕ → DeviceRow → DeviceRow
  change_device device timestamp r = record r {
    public_name = device.public_name;
    driver = device.driver;
    status = codes "online";
    metadata_json = J.dump device.metadata_json;
    last_seen_at_ms = timestamp;
    updated_at_ms = timestamp;
  }

  unfoldable pub upsert_device : Sqlite → CatalogDevice J → ℕ → Tables → Option Tables
  upsert_device db device timestamp t =
      if not (works db upsert_device_row t)
      then none
      else if name_held device.device_key device.public_name t.devices
      then none
      else some (record t {
        devices =
            put_device device.device_key (change_device device timestamp)
              (device_row db device timestamp t) t.devices;
      })

  abbrev pub stream_row : Sqlite → ℕ → CatalogSource J → ℕ → Tables → StreamRow
  stream_row db device_id source timestamp t = record {
    stream_id = db.next_id (stream_ids t.streams);
    device_id = device_id;
    selector = source.selector;
    public_name = source.public_name;
    media_kind = source.media_kind;
    shape_kind = source.shape_kind;
    channel = text_or_null source.channel;
    group_key = text_or_null source.group_key;
    caps_json = J.dump source.caps_json;
    capture_policy_json = json_or_null source.capture_policy_json;
    members_json = json_or_null source.members_json;
    publications_json = J.dump source.publications_json;
    is_present = true;
    created_at_ms = timestamp;
    updated_at_ms = timestamp;
  }

  abbrev pub change_stream : CatalogSource J → ℕ → StreamRow → StreamRow
  change_stream source timestamp r = record r {
    public_name = source.public_name;
    media_kind = source.media_kind;
    shape_kind = source.shape_kind;
    channel = text_or_null source.channel;
    group_key = text_or_null source.group_key;
    caps_json = J.dump source.caps_json;
    capture_policy_json = json_or_null source.capture_policy_json;
    members_json = json_or_null source.members_json;
    publications_json = J.dump source.publications_json;
    is_present = true;
    updated_at_ms = timestamp;
  }

  -- The schema allows no other `shape_kind` than `exact` and `grouped`.
  unfoldable pub upsert_source : Sqlite → ℕ → CatalogSource J → ℕ → Tables → Option Tables
  upsert_source db device_id source timestamp t =
      if not (works db upsert_stream_row t)
      then none
      else if not (one_of source.shape_kind (codes "exact" ∷ codes "grouped" ∷ []))
      then none
      else if source_name_held device_id source.selector source.public_name t.streams
      then none
      else some (record t {
        streams =
            put_source device_id source.selector (change_stream source timestamp)
              (stream_row db device_id source timestamp t) t.streams;
      })
