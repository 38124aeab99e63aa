-- ===== src/Runtime/Plan/Suffix.antt =====
-- `parse_unsigned_suffix` of backend/src/session_service.cpp.
use insight_io.Base.{
  ℕ, ◌+◌, ◌-◌, ◌*◌, ◌%◌, Bool, ◌&&◌, ◌||◌, Option, none, some, [], ◌∷◌, leb, ◌==◌, if◌then◌else◌,
  Text, is_empty, u64_mod, u32_mod,
}
use insight_io.Uri.Split.{strip_prefix}

-- `std::stoul`: white space, a sign and digits; what follows is not looked at.
unfoldable pub skip_spaces : Text → Text
skip_spaces [] = []
skip_spaces (c ∷ s) =
    let rest = skip_spaces s in if c == b' ' || (leb 9 c && leb c 13) then rest else c ∷ s

abbrev is_digit : ℕ → Bool
is_digit c = leb b'0' c && leb c b'9'

unfoldable pub digits_value : Text → ℕ → ℕ
digits_value [] n = n
digits_value (c ∷ s) n =
    let rest = digits_value s (n * 10 + (c - b'0')) in if is_digit c then rest else n

-- The number of the digits, if there is one and it fits 64 bits.
unfoldable pub magnitude : Text → Option ℕ
magnitude [] = none
magnitude (c ∷ s) =
    let n = digits_value (c ∷ s) 0 in if is_digit c && leb (n + 1) u64_mod then some n else none

unfoldable pub signed_number : Text → Option ℕ
signed_number [] = none
signed_number (c ∷ s) =
    if c == b'-'
    then elim (magnitude s) [ none ↦ none | some n ↦ some ((u64_mod - n) % u64_mod) ]
    else if c == b'+'
    then magnitude s
    else magnitude (c ∷ s)

unfoldable pub stoul : Text → Option ℕ
stoul t = signed_number (skip_spaces t)

unfoldable pub parse_unsigned_suffix : Text → Text → Option ℕ
parse_unsigned_suffix value prefix = elim (strip_prefix prefix value) [
  | none ↦ none
  | some rest ↦
      if is_empty rest
      then none
      else elim (stoul rest) [ none ↦ none | some n ↦ some (n % u32_mod) ]
]
