-- ===== src/Catalog/Repository.antt =====
-- `replace_catalog` and the aliases of `CatalogRepository` of backend/src/catalog.cpp.
pub mod Load
pub mod Alias
use insight_io.Base.{
  ℕ, Bool, true, false, not, ◌&&◌, ◌||◌, Option, none, some, List, [], ◌∷◌, ◌++◌, map, ◌==◌,
  if◌then◌else◌, Text, codes, text_eq, is_empty, Error,
}
use insight_io.Json.{JsonApi}
use insight_io.Types.Decimal.{to_string}
use insight_io.Types.Slug.{slugify, normalize_stream_public_name}
use insight_io.Catalog.Sources.Source.{CatalogSource}
use insight_io.Catalog.Tables.{
  CatalogDevice, DeviceRow, StreamRow, Tables, Statement, begin_transaction, rollback, commit,
  find_alias, conflict_alias, write_alias, find_source_alias, conflict_source_alias,
  write_source_alias, Sqlite, works, mark_all_offline, lookup_device_id, upsert_device,
  upsert_source,
}

-- A connection: the tables, and what a rollback brings back while a transaction is open.
pub record Connection : Type 0 where
  pub tables : Tables
  pub saved : Option Tables

-- `BEGIN IMMEDIATE TRANSACTION`, which fails inside a transaction.
unfoldable pub begin : Sqlite → Connection → Option Connection
begin db c = elim c.saved [
  | some t ↦ none
  | none ↦
      if db.runs begin_transaction c.tables then some (record c { saved = some c.tables }) else none
]

-- `ROLLBACK`, whose result the repository does not look at.
unfoldable pub roll_back : Sqlite → Connection → Connection
roll_back db c =
    if db.runs rollback c.tables
    then elim c.saved as (λ _. Connection) [
      | none ↦ c
      | some t ↦ record { tables = t; saved = none }
    ]
    else c

unfoldable pub commit_all : Sqlite → Connection → Bool × Connection
commit_all db c = if db.runs commit c.tables then (true, record c { saved = none }) else (false, c)

module _ (J : JsonApi) (db : Sqlite) (timestamp : ℕ) where
  -- The loop over the sources of a device.
  unfoldable pub upsert_sources : ℕ → List (CatalogSource J) → Tables → Bool × Tables
  upsert_sources device_id [] t = (true, t)
  upsert_sources device_id (source ∷ sources) t =
      elim (upsert_source J db device_id source timestamp t) [
        | none ↦ (false, t)
        | some next ↦ upsert_sources device_id sources next
      ]

  -- The loop over the devices.
  unfoldable pub upsert_devices : List (CatalogDevice J) → Tables → Bool × Tables
  upsert_devices [] t = (true, t)
  upsert_devices (device ∷ devices) t = elim (upsert_device J db device timestamp t) [
    | none ↦ (false, t)
    | some next ↦ elim (lookup_device_id db device.device_key next) [
      | none ↦ (false, next)
      | some device_id ↦
          let (done, after) = upsert_sources device_id device.sources next in
          let rest = upsert_devices devices after in if done then rest else (false, after)
    ]
  ]

  -- What stands between `BEGIN` and the end of the transaction.
  unfoldable pub write_catalog : List (CatalogDevice J) → Tables → Bool × Tables
  write_catalog devices t =
      let (marked, offline) = mark_all_offline db timestamp t in
      if marked then upsert_devices devices offline else (false, offline)

  unfoldable pub replace_catalog : List (CatalogDevice J) → Connection → Bool × Connection
  replace_catalog devices c = elim (begin db c) [
    | none ↦ (false, c)
    | some started ↦
        let (written, t) = write_catalog devices started.tables in
        let changed = record started { tables = t } in
        if written then commit_all db changed else (false, roll_back db changed)
  ]

-- The row that `WHERE public_name = ? AND status != 'offline'` finds.
unfoldable pub find_online : Text → List DeviceRow → Option DeviceRow
find_online name [] = none
find_online name (r ∷ rows) =
    let rest = find_online name rows in
    if text_eq r.public_name name && not (text_eq r.status (codes "offline")) then some r else rest

-- `WHERE public_name = ? AND public_name != ?`
unfoldable pub any_other : Text → Text → List DeviceRow → Bool
any_other name current [] = false
any_other name current (r ∷ rows) =
    (text_eq r.public_name name && not (text_eq r.public_name current))
    || any_other name current rows

-- `UPDATE devices SET public_name = ?, updated_at_ms = ? WHERE public_name = ?`
abbrev pub rename : Text → Text → ℕ → DeviceRow → DeviceRow
rename current name now r =
    if text_eq r.public_name current
    then record r { public_name = name; updated_at_ms = now }
    else r

-- An error with the status of the answer.
pub record Failure : Type 0 where
  pub status : ℕ
  pub error : Error

abbrev pub failure : ℕ → Text → Text → Failure
failure status code message = record {
  status = status;
  error = record { code = code; message = message };
}

abbrev pub internal : Text → Failure
internal message = failure 500 (codes "internal") message

-- What is left to the caller: the failure, or that there is none, and the tables.
unfoldable pub update_alias : Sqlite → Text → Text → ℕ → Tables → Option Failure × Tables
update_alias db current alias now t =
    let normalized = slugify alias in
    if is_empty normalized
    then (
      some (
          failure 422 (codes "invalid_alias")
            (codes "Alias must contain at least one alphanumeric character")),
      t,
    )
    else if not (db.prepares find_alias)
    then (some (internal (codes "Failed to prepare alias lookup")), t)
    else elim (if db.runs find_alias t then find_online current t.devices else none) [
      | none ↦ (
        some (failure 404 (codes "not_found") (codes "Device '" ++ current ++ codes "' not found")),
        t,
      )
      | some r ↦
          if not (db.prepares conflict_alias)
          then (some (internal (codes "Failed to prepare alias conflict check")), t)
          else if db.runs conflict_alias t && any_other normalized current t.devices
          then (
            some (
                failure 409 (codes "conflict")
                  (codes "Device alias '" ++ normalized ++ codes "' is already in use")),
            t,
          )
          else if not (db.prepares write_alias)
          then (some (internal (codes "Failed to prepare alias update")), t)
          else if not (db.runs write_alias t) || any_other normalized current t.devices
          then (some (internal (codes "Failed to update alias")), t)
          else (none, record t { devices = map (rename current normalized now) t.devices })
    ]

unfoldable pub find_stream_row : ℕ → List StreamRow → Option StreamRow
find_stream_row stream_id [] = none
find_stream_row stream_id (r ∷ rows) =
    let rest = find_stream_row stream_id rows in if r.stream_id == stream_id then some r else rest

-- `WHERE device_id = ? AND public_name = ? AND stream_id != ?`
unfoldable pub any_other_source : ℕ → Text → ℕ → List StreamRow → Bool
any_other_source device_id name stream_id [] = false
any_other_source device_id name stream_id (r ∷ rows) =
    ((r.device_id == device_id) && text_eq r.public_name name && not (r.stream_id == stream_id))
    || any_other_source device_id name stream_id rows

abbrev pub rename_source : ℕ → Text → ℕ → StreamRow → StreamRow
rename_source stream_id name now r =
    if r.stream_id == stream_id then record r { public_name = name; updated_at_ms = now } else r

unfoldable pub update_source_alias : Sqlite → ℕ → Text → ℕ → Tables → Option Failure × Tables
update_source_alias db stream_id alias now t =
    let normalized = normalize_stream_public_name alias in
    if is_empty normalized
    then (
      some (
          failure 422 (codes "invalid_alias")
            (codes "Stream alias must contain at least one alphanumeric segment")),
      t,
    )
    else if not (db.prepares find_source_alias)
    then (some (internal (codes "Failed to prepare stream alias lookup")), t)
    else elim (if db.runs find_source_alias t then find_stream_row stream_id t.streams else none) [
      | none ↦ (
        some (
            failure 404 (codes "not_found")
              (codes "Stream '" ++ to_string stream_id ++ codes "' not found")),
        t,
      )
      | some r ↦
          let taken = any_other_source r.device_id normalized stream_id t.streams in
          if not (db.prepares conflict_source_alias)
          then (some (internal (codes "Failed to prepare stream alias conflict check")), t)
          else if db.runs conflict_source_alias t && taken
          then (
            some (
                failure 409 (codes "conflict")
                  (codes "Stream alias '" ++ normalized ++ codes "' is already in use")),
            t,
          )
          else if not (db.prepares write_source_alias)
          then (some (internal (codes "Failed to prepare stream alias update")), t)
          else if not (db.runs write_source_alias t) || taken
          then (some (internal (codes "Failed to update stream alias")), t)
          else (none, record t { streams = map (rename_source stream_id normalized now) t.streams })
    ]
