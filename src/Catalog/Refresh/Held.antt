-- ===== src/Catalog/Refresh/Held.antt =====
-- What `CatalogService::refresh` of backend/src/catalog.cpp leaves behind when it fails, and a name
-- that makes it fail.
use insight_io.Base.{
  ℕ, ◌≡◌, refl, ap, ◌∙◌, ◌⊎◌, inl, inr, Bool, true, false, not, ◌&&◌, ◌||◌, none, some, List, [],
  ◌∷◌, map, Text, codes, text_eq, is_empty, Bool-cases, if_by_cases,
}
use insight_io.Json.{JsonApi}
use insight_io.Types.{DeviceInfo, stable_device_key, public_device_id_base}
use insight_io.Types.{one_of}
use insight_io.Types.Names.{public_device_id_base-IsSlug}
use insight_io.Types.Slug.Laws.{IsSlug, is_slug_from}
use insight_io.Catalog.Unique.{unique_public_name, unique_public_name-kept}
use insight_io.Catalog.Tables.{
  CatalogDevice, DeviceRow, Tables, Sqlite, name_held, mark_all_offline, upsert_device,
  begin_transaction, rollback, works, mark_devices, mark_streams, upsert_device_row,
}
use insight_io.Catalog.Repository.{
  Connection, begin, roll_back, upsert_devices, write_catalog, replace_catalog,
}
use insight_io.Catalog.Repository.Load.{find_name, existing_public_names_by_key}
use insight_io.Catalog.Refresh.{
  DiscoveryResult, Config, CatalogService, name_devices, named_device, discovered, refresh,
  wanted_name, Names,
}

-- Outcomes of `replace_catalog` on a connection without an open transaction.
unfoldable pub Outcomes : Sqlite → Connection → Bool × Connection → Type 0
Outcomes db c (done, after) =
    ((done ≡ true) × (after.saved ≡ none))
    ⊎ ((done ≡ false) × (after.tables ≡ c.tables) × (after.saved ≡ none))
    ⊎ ((done ≡ false) × (after.saved ≡ some c.tables))

begin-cases :
    (db : Sqlite) (c : Connection)
    → c.saved ≡ none
    → (begin db c ≡ none)
      ⊎ (begin db c ≡ some (record { tables = c.tables; saved = some c.tables }))
unfolding begin
begin-cases db c closed = elim (Bool-cases (db.runs begin_transaction c.tables)) [
  | inl begun ↦ inr (rw closed (rw begun refl))
  | inr refused ↦ inl (rw closed (rw refused refl))
]

name_held-offline :
    (key name : Text) (now : ℕ) (rows : List DeviceRow)
    → name_held key name
        (map (λ (r : DeviceRow). record r { status = codes "offline"; updated_at_ms = now }) rows)
      ≡ name_held key name rows
unfolding name_held
name_held-offline key name now [] = refl
name_held-offline key name now (r ∷ rows) =
    ap (λ b. (not (text_eq r.device_key key) && text_eq r.public_name name) || b)
      (name_held-offline key name now rows)

-- What is marked, if all of it is.
marked-devices :
    (db : Sqlite) (now : ℕ) (t : Tables)
    → (mark_all_offline db now t).0 ≡ true
    → (mark_all_offline db now t).1.devices
      ≡ map
          (λ (r : DeviceRow). record r { status = codes "offline"; updated_at_ms = now })
          t.devices
unfolding mark_all_offline
marked-devices db now t =
    let P = λ (r : Bool × Tables).
      r.0 ≡ true
      → r.1.devices
        ≡ map (λ (d : DeviceRow). record d { status = codes "offline"; updated_at_ms = now })
            t.devices in
    if_by_cases P (not (works db mark_devices t)) _ _ (λ _ h. absurd cc)
      (λ _. if_by_cases P (not (works db mark_streams _)) _ _ (λ _ h. absurd cc) (λ _ _. refl))

module _ (J : JsonApi) (db : Sqlite) (now : ℕ) where
  upsert_device-held :
      (device : CatalogDevice J) (t : Tables)
      → name_held device.device_key device.public_name t.devices ≡ true
      → upsert_device J db device now t ≡ none
  unfolding upsert_device
  upsert_device-held device t held = elim (Bool-cases (not (works db upsert_device_row t))) [
    | inl stuck ↦ rw stuck refl
    | inr ready ↦ rw (ready, held) refl
  ]

  write_catalog-held :
      (device : CatalogDevice J) (devices : List (CatalogDevice J)) (t : Tables)
      → name_held device.device_key device.public_name t.devices ≡ true
      → (write_catalog J db now (device ∷ devices) t).0 ≡ false
  unfolding write_catalog upsert_devices
  write_catalog-held device devices t held = elim (Bool-cases (mark_all_offline db now t).0) [
    | inl marked ↦
        let still =
          ap (name_held device.device_key device.public_name) (marked-devices db now t marked)
          ∙ name_held-offline device.device_key device.public_name now t.devices
          ∙ held in
        rw marked
          (rw (upsert_device-held device (mark_all_offline db now t).1 still, upsert_devices) refl)
    | inr unmarked ↦ rw unmarked refl
  ]

  replace_catalog-refused :
      (devices : List (CatalogDevice J)) (c : Connection)
      → c.saved ≡ none
      → ((u : Tables) → db.runs rollback u ≡ true)
      → (write_catalog J db now devices c.tables).0 ≡ false
      → ((replace_catalog J db now devices c).0 ≡ false)
        × ((replace_catalog J db now devices c).1.tables ≡ c.tables)
  unfolding replace_catalog roll_back
  replace_catalog-refused devices c closed rolls failed = elim (begin-cases db c closed) [
    | inl refused ↦ rw (refused, replace_catalog) (refl, refl)
    | inr begun ↦ rw (begun, replace_catalog) (rw failed (rw rolls (refl, refl)))
  ]

IsSlug-named : (s : Text) → IsSlug s → is_empty s ≡ false
unfolding is_slug_from
IsSlug-named [] h = cc
IsSlug-named (c ∷ s) h = refl

-- The first device that a refresh meets gets the name it wants.
first_name :
    (raw : DeviceInfo) (existing : Names)
    → find_name (stable_device_key raw.identity) existing ≡ none
    → let default_name = (unique_public_name (public_device_id_base raw 1) []).0 in
      (unique_public_name (wanted_name (stable_device_key raw.identity) default_name existing) []).0
      ≡ public_device_id_base raw 1
unfolding one_of
first_name raw existing unknown =
    let base = public_device_id_base raw 1 in
    let kept =
      unique_public_name-kept base [] (IsSlug-named base (public_device_id_base-IsSlug raw 1))
        refl in
    let default_name = (unique_public_name base []).0 in
    let wanted : wanted_name (stable_device_key raw.identity) default_name existing ≡ default_name =
      ap (λ o. elim o as (λ _. Text) [ some n ↦ n | none ↦ default_name ]) unknown in
    ap (λ w. (unique_public_name w []).0) (wanted ∙ kept) ∙ kept

module _ (J : JsonApi) (config : Config) (db : Sqlite) where
  discovered-held :
      (discovery : DiscoveryResult) (now : ℕ) (t : Tables) (raw : DeviceInfo)
      (raws : List DeviceInfo)
      → discovery.devices ≡ raw ∷ raws
      → find_name (stable_device_key raw.identity) (existing_public_names_by_key db t) ≡ none
      → name_held (stable_device_key raw.identity) (public_device_id_base raw 1) t.devices ≡ true
      → (write_catalog J db now (discovered J config db discovery t) t).0 ≡ false
  unfolding discovered name_devices
  discovered-held discovery now t raw raws found unknown held =
      let existing = existing_public_names_by_key db t in
      let name = first_name raw existing unknown in
      rw (found, discovered, name_devices)
        (write_catalog-held J db now _ _ t (
          unfold named_device in
          ap (λ n. name_held (stable_device_key raw.identity) n t.devices) name ∙ held))

  -- A device that is not in the tables, whose default name a row of another device holds, online
  -- or offline, makes the refresh that finds it first fail: it returns false, and the tables and
  -- the devices that the service lists stay as they were. No transaction is open before, and
  -- rollbacks run.
  pub refresh-held :
      (discovery : DiscoveryResult) (now : ℕ) (service : CatalogService J) (raw : DeviceInfo)
      (raws : List DeviceInfo)
      → discovery.devices ≡ raw ∷ raws
      → find_name
          (stable_device_key raw.identity)
          (existing_public_names_by_key db service.connection.tables)
        ≡ none
      → name_held
          (stable_device_key raw.identity)
          (public_device_id_base raw 1)
          service.connection.tables.devices
        ≡ true
      → service.connection.saved ≡ none
      → ((t : Tables) → db.runs rollback t ≡ true)
      → let after = refresh J config db discovery now service in
        (after.0 ≡ false)
        × (after.1.connection.tables ≡ service.connection.tables)
        × (after.1.devices ≡ service.devices)
  unfolding refresh
  refresh-held discovery now service raw raws found unknown held closed rolls =
      let t = service.connection.tables in
      let devices = discovered J config db discovery t in
      let (failed, same) =
        replace_catalog-refused J db now devices service.connection closed rolls
          (discovered-held discovery now t raw raws found unknown held) in
      rw failed (refl, same, refl)
