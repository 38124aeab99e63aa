-- ===== src/Catalog/Refresh/Named.antt =====
-- The names that `CatalogService::refresh` of backend/src/catalog.cpp gives.
use mathlib.Core.Path.{subst}
use insight_io.Base.{
  ℕ, suc, ◌≡◌, refl, ap, ◌∙◌, inl, inr, Bool, false, ◌||◌, none, some, List, [], ◌∷◌, arith, Text,
  text_eq, is_empty, Bool-cases,
}
use insight_io.Json.{JsonApi}
use insight_io.Types.{DeviceInfo, stable_device_key, public_device_id_base, one_of}
use insight_io.Catalog.Unique.{
  unique_public_name, unique_public_name-fresh, unique_public_name-kept,
}
use insight_io.Catalog.Sources.{build_sources_for_device}
use insight_io.Catalog.Sources.Source.{CatalogSource}
use insight_io.Catalog.Sources.Apart.{
  AllDistinct, Apart, Apart-cons, Apart-empty, Apart-uncons, text_eq_sym,
}
use insight_io.Catalog.Tables.{CatalogDevice, Tables, Sqlite}
use insight_io.Catalog.Repository.Load.{
  sort, insert_sorted, make_stream_identity_key, find_name, existing_public_names_by_key,
  existing_source_public_names_by_key,
}
use insight_io.Catalog.Refresh.{
  DiscoveryResult, Names, wanted_name, Config, name_sources, source_before, named_device,
  name_devices, discovered,
}

-- A name that avoids a set comes before names that avoid the set with it.
fresh_first :
    (wanted : Text) (used ns : List Text)
    → AllDistinct ns × Apart ns (unique_public_name wanted used).1
    → AllDistinct ((unique_public_name wanted used).0 ∷ ns)
      × Apart ((unique_public_name wanted used).0 ∷ ns) used
fresh_first wanted used ns (distinct, apart) =
    let (fresh, grows) = unique_public_name-fresh wanted used in
    let (rest, new) =
      Apart-cons (unique_public_name wanted used).0 ns used (subst (λ s. Apart ns s) grows apart) in
    ((new, distinct), (fresh, rest))

or_swap : (a b c : Bool) → (a || (b || c)) ≡ (b || (a || c))
or_swap a b c = ground arith

or_false : (a b : Bool) → (a || b) ≡ false → (a ≡ false) × (b ≡ false)
or_false a b h = ground arith

wanted_name-found :
    (key default_name name : Text) (existing : Names)
    → find_name key existing ≡ some name
    → wanted_name key default_name existing ≡ name
wanted_name-found key default_name name existing found =
    ap (λ o. elim o as (λ _. Text) [ some n ↦ n | none ↦ default_name ]) found

-- The names that the devices have in the tables, none of them empty.
abbrev pub Known : Names → List DeviceInfo → List Text → Type 0
Known existing [] [] = Unit {0}
Known existing [] (n ∷ ns) = ⊥
Known existing (raw ∷ raws) [] = ⊥
Known existing (raw ∷ raws) (n ∷ ns) =
    (find_name (stable_device_key raw.identity) existing ≡ some n)
    × (is_empty n ≡ false)
    × Known existing raws ns

module _ (J : JsonApi) where
  abbrev pub public_names : List (CatalogDevice J) → List Text
  public_names [] = []
  public_names (d ∷ devices) = d.public_name ∷ public_names devices

  abbrev pub default_names : List (CatalogDevice J) → List Text
  default_names [] = []
  default_names (d ∷ devices) = d.default_name ∷ default_names devices

  abbrev pub source_names : List (CatalogSource J) → List Text
  source_names [] = []
  source_names (s ∷ sources) = s.public_name ∷ source_names sources

  module _ (less : CatalogSource J → CatalogSource J → Bool) where
    one_of-insert_sorted :
        (t : Text) (s : CatalogSource J) (l : List (CatalogSource J))
        → one_of t (source_names (insert_sorted less s l))
          ≡ (text_eq t s.public_name || one_of t (source_names l))
    unfolding insert_sorted one_of
    one_of-insert_sorted t s [] = refl
    one_of-insert_sorted t s (r ∷ l) = elim (Bool-cases (less s r)) [
      | inl before ↦ rw before refl
      | inr behind ↦ rw behind (
          ap (λ b. text_eq t r.public_name || b) (one_of-insert_sorted t s l)
          ∙ or_swap (text_eq t r.public_name) (text_eq t s.public_name) (one_of t (source_names l)))
    ]

    one_of-sort :
        (t : Text) (l : List (CatalogSource J))
        → one_of t (source_names (sort less l)) ≡ one_of t (source_names l)
    unfolding sort one_of
    one_of-sort t [] = refl
    one_of-sort t (s ∷ l) =
        one_of-insert_sorted t s (sort less l)
        ∙ ap (λ b. text_eq t s.public_name || b) (one_of-sort t l)

    AllDistinct-insert_sorted :
        (s : CatalogSource J) (l : List (CatalogSource J))
        → one_of s.public_name (source_names l) ≡ false
        → AllDistinct (source_names l)
        → AllDistinct (source_names (insert_sorted less s l))
    unfolding insert_sorted one_of
    AllDistinct-insert_sorted s [] new distinct = (refl, tt)
    AllDistinct-insert_sorted s (r ∷ l) new (first, distinct) = elim (Bool-cases (less s r)) [
      | inl before ↦ rw before (new, (first, distinct))
      | inr behind ↦
          let (apart, rest) = or_false _ _ new in
          rw behind (
            one_of-insert_sorted r.public_name s l
                ∙ rw (text_eq_sym s.public_name r.public_name apart) first,
            AllDistinct-insert_sorted s l rest distinct,
          )
    ]

    AllDistinct-sort :
        (l : List (CatalogSource J))
        → AllDistinct (source_names l)
        → AllDistinct (source_names (sort less l))
    unfolding sort
    AllDistinct-sort [] h = tt
    AllDistinct-sort (s ∷ l) (new, h) =
        AllDistinct-insert_sorted s (sort less l) (one_of-sort s.public_name l ∙ new)
          (AllDistinct-sort l h)

  -- What is promised of the names of a device's streams.
  abbrev pub SourcesNamed : List (CatalogDevice J) → Type 0
  SourcesNamed [] = Unit {0}
  SourcesNamed (d ∷ devices) = AllDistinct (source_names d.sources) × SourcesNamed devices

  module _ (config : Config) where
    name_sources-fresh :
        (key device_name : Text) (existing : Names) (sources : List (CatalogSource J))
        (used : List Text)
        → let ns = source_names (name_sources J config key device_name existing sources used) in
          AllDistinct ns × Apart ns used
    unfolding name_sources
    name_sources-fresh key device_name existing [] used = (tt, tt)
    name_sources-fresh key device_name existing (s ∷ sources) used =
        let wanted = wanted_name (make_stream_identity_key key s.selector) s.selector existing in
        fresh_first wanted used _
          (name_sources-fresh key device_name existing sources (unique_public_name wanted used).1)

    name_devices-fresh :
        (existing existing_sources : Names) (raws : List DeviceInfo) (index : ℕ)
        (defaults used : List Text)
        → let l = name_devices J config existing existing_sources raws index defaults used in
          (AllDistinct (public_names l) × Apart (public_names l) used)
          × (AllDistinct (default_names l) × Apart (default_names l) defaults)
          × SourcesNamed l
    unfolding name_devices named_device
    name_devices-fresh existing existing_sources [] index defaults used = ((tt, tt), (tt, tt), tt)
    name_devices-fresh existing existing_sources (raw ∷ raws) index defaults used =
        let base = public_device_id_base raw (suc index) in
        let default_name = (unique_public_name base defaults).0 in
        let key = stable_device_key raw.identity in
        let wanted = wanted_name key default_name existing in
        let name = (unique_public_name wanted used).0 in
        let (publics, defaults_fresh, sources) =
          name_devices-fresh existing existing_sources raws (suc index)
            (unique_public_name base defaults).1 (unique_public_name wanted used).1 in
        let built = build_sources_for_device J config.probe raw name config.rtsp_host in
        (
          fresh_first wanted used _ publics,
          fresh_first base defaults _ defaults_fresh,
          (
            AllDistinct-sort (source_before J config) _
                (name_sources-fresh key name existing_sources built []).0,
            sources,
          ),
        )

    -- A refresh gives all the devices that it found different public names and different default
    -- names, and the streams of each device different public names.
    pub discovered-distinct :
        (db : Sqlite) (discovery : DiscoveryResult) (t : Tables)
        → let devices = discovered J config db discovery t in
          AllDistinct (public_names devices)
          × AllDistinct (default_names devices)
          × SourcesNamed devices
    unfolding discovered
    discovered-distinct db discovery t =
        let (publics, defaults, sources) =
          name_devices-fresh (existing_public_names_by_key db t)
            (existing_source_public_names_by_key db t) discovery.devices 0 [] [] in
        (publics.0, defaults.0, sources)

    name_devices-kept :
        (existing existing_sources : Names) (raws : List DeviceInfo) (ns : List Text) (index : ℕ)
        (defaults used : List Text)
        → Known existing raws ns
        → AllDistinct ns
        → Apart ns used
        → public_names (name_devices J config existing existing_sources raws index defaults used)
          ≡ ns
    unfolding name_devices named_device
    name_devices-kept existing existing_sources [] [] index defaults used known distinct apart =
        refl
    name_devices-kept existing existing_sources [] (n ∷ ns) index defaults used known distinct
          apart =
        absurd known
    name_devices-kept existing existing_sources (raw ∷ raws) [] index defaults used known distinct
          apart =
        absurd known
    name_devices-kept existing existing_sources (raw ∷ raws) (n ∷ ns) index defaults used
          (found, named, known) (new, distinct) (free, apart) =
        let base = public_device_id_base raw (suc index) in
        let default_name = (unique_public_name base defaults).0 in
        let kept = unique_public_name-kept n used named free in
        let (_, grows) = unique_public_name-fresh n used in
        let now : (unique_public_name n used).1 ≡ n ∷ used = grows ∙ ap (λ x. x ∷ used) kept in
        let after : List Text → List Text = λ u. public_names (
          name_devices J config existing existing_sources raws (suc index)
            (unique_public_name base defaults).1 u) in
        let wanted : wanted_name (stable_device_key raw.identity) default_name existing ≡ n =
          wanted_name-found (stable_device_key raw.identity) default_name n existing found in
        ap (λ w. (unique_public_name w used).0 ∷ after (unique_public_name w used).1) wanted
        ∙ ap (λ m. m ∷ after (unique_public_name n used).1) kept
        ∙ ap (λ u. n ∷ after u) now
        ∙ ap (λ l. n ∷ l)
            (name_devices-kept existing existing_sources raws ns (suc index)
              (unique_public_name base defaults).1 (n ∷ used) known distinct
              (Apart-uncons n ns used new apart))

    -- The public names of devices are stable: if all the devices that a refresh finds have names in
    -- the tables, different ones and none of them empty, they keep them, in any order of discovery.
    pub discovered-kept :
        (db : Sqlite) (discovery : DiscoveryResult) (t : Tables) (ns : List Text)
        → Known (existing_public_names_by_key db t) discovery.devices ns
        → AllDistinct ns
        → public_names (discovered J config db discovery t) ≡ ns
    unfolding discovered
    discovered-kept db discovery t ns known distinct =
        name_devices-kept (existing_public_names_by_key db t)
          (existing_source_public_names_by_key db t) discovery.devices ns 0 [] [] known distinct
          (Apart-empty ns)
