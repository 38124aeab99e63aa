-- ===== src/Catalog/Repository/Alias.antt =====
-- `update_alias` of `CatalogRepository` of backend/src/catalog.cpp.
use insight_io.Base.{
  ℕ, ◌≡◌, refl, sym, ap, ◌∙◌, inl, inr, Bool, true, false, not, ◌&&◌, ◌||◌, Option, none, some,
  List, [], ◌∷◌, map, arith, if◌then◌else◌, Text, codes, text_eq, text_eq_refl, is_empty,
  Bool-cases, Option-cases, if_by_cases,
}
use insight_io.Types.Slug.{slugify}
use insight_io.Catalog.Tables.{DeviceRow, Tables, Sqlite, find_alias, conflict_alias, write_alias}
use insight_io.Catalog.Repository.{find_online, any_other, rename, Failure, update_alias}

any_other-cons :
    (name current : Text) (s : DeviceRow) (rows : List DeviceRow)
    → any_other name current (s ∷ rows) ≡ false
    → (text_eq s.public_name current ≡ false → text_eq s.public_name name ≡ false)
      × (any_other name current rows ≡ false)
unfolding any_other
any_other-cons name current s rows free = (λ other. ground arith, ground arith)

rename-hit :
    (current name : Text) (now : ℕ) (r : DeviceRow)
    → text_eq r.public_name current ≡ true
    → rename current name now r ≡ record r { public_name = name; updated_at_ms = now }
rename-hit current name now r same = rw same refl

-- The row that is found under the new name after the change is the one that the old name found.
find_online-rename :
    (current name : Text) (now : ℕ) (rows : List DeviceRow) (r : DeviceRow)
    → any_other name current rows ≡ false
    → find_online current rows ≡ some r
    → find_online name (map (rename current name now) rows) ≡ some (rename current name now r)
unfolding find_online any_other
find_online-rename current name now [] r free found = absurd cc
find_online-rename current name now (s ∷ rows) r free found =
    let (apart, rest) = any_other-cons name current s rows free in
    elim (Bool-cases (text_eq s.public_name current)) [
      | inl same ↦ elim (Bool-cases (text_eq s.status (codes "offline"))) [
        | inl offline ↦
            let later : find_online current rows ≡ some r = ground arith in
            rw same (
              rw (text_eq_refl name)
                (rw offline (find_online-rename current name now rows r rest later)))
        | inr online ↦
            let here : s ≡ r = ground arith in
            rw same (
              rw (text_eq_refl name) (
                rw online (
                  ap some (
                    sym (rename-hit current name now s same) ∙ ap (rename current name now) here))))
      ]
      | inr other ↦
          let later : find_online current rows ≡ some r = ground arith in
          let missed = apart other in
          rw other (rw missed (find_online-rename current name now rows r rest later))
    ]

-- What `update_alias` ends with: a failure and the tables as they were, or the tables with the
-- device renamed.
unfoldable pub Outcome : Text → Text → ℕ → Tables → Option Failure × Tables → Type 0
Outcome current name now t (some f, after) = after ≡ t
Outcome current name now t (none, after) =
    (is_empty name ≡ false)
    × ((r : DeviceRow) × (find_online current t.devices ≡ some r)
        × (find_online name after.devices ≡ some (rename current name now r)))

module _ (db : Sqlite) (current alias : Text) (now : ℕ) (t : Tables) where
  abbrev P : Option Failure × Tables → Type 0
  P = Outcome current (slugify alias) now t

  abbrev taken : Bool
  taken = any_other (slugify alias) current t.devices

  -- `update_alias` fails and leaves the tables as they were, or succeeds: then the alias has a
  -- letter or a digit, the device was online under its current name, and it is found online under
  -- the slug of the alias, changed in its name and its time only.
  pub update_alias-Outcome :
      Outcome current (slugify alias) now t (update_alias db current alias now t)
  unfolding update_alias Outcome
  update_alias-Outcome =
      if_by_cases P (is_empty (slugify alias)) _ _ (λ _. refl)
        (λ named.
          if_by_cases P (not (db.prepares find_alias)) _ _ (λ _. refl)
            (λ _.
              elim (Option-cases
                (if db.runs find_alias t then find_online current t.devices else none)) [
                  | inl missing ↦ rw missing refl
                  | inr (r, found) ↦ rw found (
                      if_by_cases P (not (db.prepares conflict_alias)) _ _ (λ _. refl)
                        (λ _.
                          if_by_cases P (db.runs conflict_alias t && taken) _ _ (λ _. refl)
                            (λ _.
                              if_by_cases P (not (db.prepares write_alias)) _ _ (λ _. refl)
                                (λ _.
                                  if_by_cases P (not (db.runs write_alias t) || taken) _ _
                                    (λ _. refl)
                                    (λ kept.
                                      let there : find_online current t.devices ≡ some r =
                                        ground arith in
                                      let free : taken ≡ false = ground arith in
                                      (
                                        named,
                                        (
                                          r,
                                          there,
                                          find_online-rename current (slugify alias) now t.devices r
                                              free there,
                                        ),
                                      ))))))
                ]))
