-- ===== src/Types/Slug.antt =====
-- `slugify` of types.cpp, and `normalize_stream_public_name` of catalog.cpp, which is made of it.
pub mod Laws
pub mod Segments
use insight_io.Base.{
  ℕ, ◌+◌, Bool, true, false, not, ◌&&◌, ◌||◌, List, [], ◌∷◌, ◌++◌, leb, ◌==◌, if◌then◌else◌, Text,
  is_empty,
}

-- `std::isalnum` and `std::tolower` in the "C" locale.
unfoldable pub is_alnum : ℕ → Bool
is_alnum c = (leb b'0' c && leb c b'9') || (leb b'A' c && leb c b'Z') || (leb b'a' c && leb c b'z')

unfoldable pub to_lower : ℕ → ℕ
to_lower c = if leb b'A' c && leb c b'Z' then c + 32 else c

-- `result.pop_back()` if the last character is a dash.
unfoldable pub pop_dash : Text → Text
pop_dash [] = []
pop_dash (c ∷ []) = if c == b'-' then [] else c ∷ []
pop_dash (c ∷ d ∷ s) = c ∷ pop_dash (d ∷ s)

-- The loop of `slugify`: the input that is left, `result` and `previous_dash`.
unfoldable pub slug_loop : Text → Text → Bool → Text
slug_loop [] result previous_dash = result
slug_loop (c ∷ s) result previous_dash =
    let letter = slug_loop s (result ++ to_lower c ∷ []) false in
    let dash = slug_loop s (result ++ b'-' ∷ []) true in
    let skip = slug_loop s result previous_dash in
    if is_alnum c then letter else if not previous_dash && not (is_empty result) then dash else skip

unfoldable pub slugify : Text → Text
unfolding slug_loop pop_dash is_alnum to_lower
slugify input = pop_dash (slug_loop input [] false)

-- The parts between the slashes, which the loop of `normalize_stream_public_name` takes in turn.
unfoldable pub segments : Text → Text → List Text
segments [] part = part ∷ []
segments (c ∷ s) part =
    let next = segments s [] in
    let same = segments s (part ++ c ∷ []) in if c == b'/' then part ∷ next else same

-- The rounds of that loop: `normalized` so far, and the empty text if a part has no letter.
unfoldable pub join_slugs : List Text → Text → Text
join_slugs [] normalized = normalized
join_slugs (part ∷ parts) normalized =
    let slug = slugify part in
    let joined = if is_empty normalized then slug else normalized ++ b'/' ∷ slug in
    let rest = join_slugs parts joined in if is_empty slug then [] else rest

unfoldable pub normalize_stream_public_name : Text → Text
unfolding segments join_slugs
normalize_stream_public_name input = join_slugs (segments input []) []
