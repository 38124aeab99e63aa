-- ===== src/Json/Laws.antt =====
-- What the backend relies on when it reads members of a JSON object.
use insight_io.Base.{
  ℕ, ◌≡◌, Bool, true, false, Option, none, some, List, [], ◌∷◌, if◌then◌else◌, Text, text_eq,
}
use insight_io.Json.{JsonApi}

-- The member of a list of members.
unfoldable pub find_member {ℓ} : {A : Type ℓ} → Text → List (Text × A) → Option A
find_member key [] = none
find_member key ((k, v) ∷ ms) =
    let rest = find_member key ms in if text_eq k key then some v else rest

abbrev pub is_there {ℓ} : {A : Type ℓ} → Option A → Bool
is_there none = false
is_there (some a) = true

-- The documented behaviour of objects: the members they are made of or assigned, and how `at`,
-- `contains` and `value` read them.
pub record JsonLaws (J : JsonApi) : Type 0 where
  pub object_is : (ms : List (Text × J.Json)) → J.is_object (J.object ms) ≡ true
  pub assign_is :
      (j : J.Json) (k : Text) (v : J.Json)
      → J.is_object j ≡ true
      → J.is_object (J.assign j k v) ≡ true
  pub at_object : (ms : List (Text × J.Json)) (k : Text) → J.at (J.object ms) k ≡ find_member k ms
  pub at_assign :
      (j : J.Json) (k : Text) (v : J.Json) (l : Text)
      → J.is_object j ≡ true
      → J.at (J.assign j k v) l ≡ (if text_eq k l then some v else J.at j l)
  pub contains_at :
      (j : J.Json) (k : Text) → J.is_object j ≡ true → J.contains j k ≡ is_there (J.at j k)
  pub value_text_at :
      (j : J.Json) (k t d : Text) → J.at j k ≡ some (J.text t) → J.value_text j k d ≡ t
  pub value_number_at :
      (j : J.Json) (k : Text) (n d : ℕ) → J.at j k ≡ some (J.number n) → J.value_number j k d ≡ n
