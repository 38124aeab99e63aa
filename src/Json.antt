-- ===== src/Json.antt =====
-- The JSON library that the backend calls: its values, and what the backend does with them.
pub mod Laws
use insight_io.Base.{ℕ, Bool, Option, List, Text}

-- `nlohmann::json`: the values, how one is written down, and how it is read.
pub record JsonApi : Type 1 where
  pub Json : Type 0
  pub null : Json
  pub text : Text → Json
  pub number : ℕ → Json
  pub boolean : Bool → Json
  pub object : List (Text × Json) → Json
  pub array : List Json → Json
  pub is_object : Json → Bool
  pub is_array : Json → Bool
  -- Null, or without elements or members.
  pub is_empty : Json → Bool
  pub is_string : Json → Bool
  -- `get<std::string>`
  pub string_of : Json → Text
  -- The elements of an array.
  pub elements : Json → List Json
  pub contains : Json → Text → Bool
  -- `at`, which throws if there is no such member.
  pub at : Json → Text → Option Json
  -- `json[key] = value`
  pub assign : Json → Text → Json → Json
  -- `value(key, default)` for a text and for a number.
  pub value_text : Json → Text → Text → Text
  pub value_number : Json → Text → ℕ → ℕ
  pub dump : Json → Text
  -- `parse`, which throws on other text.
  pub parse : Text → Option Json
