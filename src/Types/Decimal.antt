-- ===== src/Types/Decimal.antt =====
-- `std::to_string` of an unsigned number: its decimal digits.
use insight_io.Base.{
  Bool-cases, inl, inr, ℕ, zero, suc, ◌+◌, ◌-◌, ◌*◌, ◌/◌, ◌%◌, ◌≤◌, ◌<◌, ◌≡◌, refl, sym, ap, ◌∙◌,
  [], ◌∷◌, arith, ltb, if◌then◌else◌, Text,
}

-- One digit for each round; `rounds` above the number are enough.
emit : ℕ → ℕ → Text → Text
emit zero n out = out
emit (suc rounds) n out =
    let rest = emit rounds (n / 10) ((b'0' + n % 10) ∷ out) in
    if ltb n 10 then (b'0' + n) ∷ out else rest

unfoldable pub to_string : ℕ → Text
unfolding emit
to_string n = emit (suc n) n []

-- The number that a text of digits stands for, read on from `n`.
value : Text → ℕ → ℕ
value [] n = n
value (c ∷ s) n = value s (n * 10 + (c - b'0'))

value-emit : (rounds n : ℕ) (out : Text) → n < rounds → value (emit rounds n out) 0 ≡ value out n
unfolding emit value
value-emit zero n out h = absurd (omega arith)
value-emit (suc rounds) n out h = elim (Bool-cases (ltb n 10)) [
  | inl small ↦ rw small (ap (value out) (omega arith))
  | inr big ↦ rw big (
      value-emit rounds (n / 10) ((b'0' + n % 10) ∷ out) (ground arith)
      ∙ ap (value out) (omega arith))
]

value-to_string : (n : ℕ) → value (to_string n) 0 ≡ n
unfolding to_string value
value-to_string n = value-emit (suc n) n [] (omega arith)

-- Different numbers are printed differently.
pub to_string-injective : (a b : ℕ) → to_string a ≡ to_string b → a ≡ b
to_string-injective a b e = sym (value-to_string a) ∙ ap (λ t. value t 0) e ∙ value-to_string b

abbrev pub AllDigits : Text → Type 0
AllDigits [] = Unit {0}
AllDigits (c ∷ s) = (b'0' ≤ c) × (c ≤ b'9') × AllDigits s

emit-AllDigits : (rounds n : ℕ) (out : Text) → AllDigits out → AllDigits (emit rounds n out)
unfolding emit
emit-AllDigits zero n out h = h
emit-AllDigits (suc rounds) n out h = elim (Bool-cases (ltb n 10)) [
  | inl small ↦ rw small (omega arith, ground arith, h)
  | inr big ↦
      rw big (emit-AllDigits rounds (n / 10) ((b'0' + n % 10) ∷ out) (omega arith, omega arith, h))
]

emit-cons :
    (rounds n : ℕ) (c : ℕ) (out : Text) → (d : ℕ) × (s : Text) × (emit rounds n (c ∷ out) ≡ d ∷ s)
unfolding emit
emit-cons zero n c out = (c, out, refl)
emit-cons (suc rounds) n c out = elim (Bool-cases (ltb n 10)) [
  | inl small ↦ rw small (b'0' + n, c ∷ out, refl)
  | inr big ↦ rw big (emit-cons rounds (n / 10) (b'0' + n % 10) (c ∷ out))
]

-- A number is printed as one digit or more.
pub to_string-AllDigits : (n : ℕ) → AllDigits (to_string n)
unfolding to_string
to_string-AllDigits n = emit-AllDigits (suc n) n [] tt

pub to_string-cons : (n : ℕ) → (d : ℕ) × (s : Text) × (to_string n ≡ d ∷ s)
unfolding to_string emit
to_string-cons n = elim (Bool-cases (ltb n 10)) [
  | inl small ↦ rw small (b'0' + n, [], refl)
  | inr big ↦ rw big (emit-cons n (n / 10) (b'0' + n % 10) [])
]
