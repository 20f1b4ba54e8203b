-- ===== src/Text/Decimal.antt =====
-- The conversion `%u` of printf, and the digits that strtoul and strtol read.
use tinyproxy.Base.{
  All, All-append, ℕ, zero, suc, ◌+◌, ◌-◌, ◌*◌, ◌/◌, ◌%◌, ◌<◌, ◌≡◌, refl, ◌∙◌, Bool, true, false,
  ◌&&◌, [], ◌∷◌, ◌++◌, append_assoc, arith, ltb, leb, ◌==◌, if◌then◌else◌, Bool-cases, inl, inr,
  Bytes,
}

pub decimal_fuel : ℕ → ℕ → Bytes
decimal_fuel zero n = []
decimal_fuel (suc f) n =
    let high = decimal_fuel f (n / 10) ++ (b'0' + n % 10) ∷ [] in
    if ltb n 10 then (b'0' + n) ∷ [] else high

-- The decimal digits of `n`.
unfoldable pub decimal : ℕ → Bytes
unfolding decimal_fuel
decimal n = decimal_fuel (suc n) n

abbrev pub is_digit : ℕ → Bool
is_digit c = leb b'0' c && leb c b'9'

-- The value of the digits at the front, and what follows them.
unfoldable pub scan_digits : ℕ → Bytes → ℕ × Bytes
scan_digits acc [] = (acc, [])
scan_digits acc (c ∷ cs) =
    let on = scan_digits (acc * 10 + (c - b'0')) cs in if is_digit c then on else (acc, c ∷ cs)

scan_digits-step :
    (acc d v : ℕ) (rest : Bytes)
    → d < 10
    → acc * 10 + d ≡ v
    → scan_digits acc ((b'0' + d) ∷ rest) ≡ scan_digits v rest
unfolding scan_digits
scan_digits-step acc d v rest h e =
    let digit : is_digit (b'0' + d) ≡ true = ground arith in
    let same : acc * 10 + (b'0' + d - b'0') ≡ v = omega arith in rw (digit, same)

decimal_fuel-low : (f n : ℕ) → ltb n 10 ≡ true → decimal_fuel (suc f) n ≡ (b'0' + n) ∷ []
unfolding decimal_fuel
decimal_fuel-low f n e = rw e

decimal_fuel-high :
    (f n : ℕ)
    → ltb n 10 ≡ false
    → decimal_fuel (suc f) n ≡ decimal_fuel f (n / 10) ++ (b'0' + n % 10) ∷ []
unfolding decimal_fuel
decimal_fuel-high f n e = rw e

scan_digits-fuel :
    (f n : ℕ) (rest : Bytes) → n < f → scan_digits 0 (decimal_fuel f n ++ rest) ≡ scan_digits n rest
scan_digits-fuel zero n rest h = absurd (omega arith)
scan_digits-fuel (suc f) n rest h = elim (Bool-cases (ltb n 10)) [
  | inl e ↦ rw (decimal_fuel-low f n e) (scan_digits-step 0 n n rest (ground arith) (omega arith))
  | inr e ↦
      rw (decimal_fuel-high f n e, append_assoc)
        (scan_digits-fuel f (n / 10) _ (ground arith)
          ∙ scan_digits-step (n / 10) (n % 10) n rest (omega arith) (omega arith))
]

-- Reading back the digits that were printed.
pub scan_digits-decimal :
    (n : ℕ) (rest : Bytes) → scan_digits 0 (decimal n ++ rest) ≡ scan_digits n rest
unfolding decimal
scan_digits-decimal n rest = scan_digits-fuel (suc n) n rest (omega arith)

abbrev pub BeginsWithDigit : Bytes → Type 0
BeginsWithDigit s = (d : ℕ) × (ds : Bytes) × (s ≡ (b'0' + d) ∷ ds) × (d < 10)

decimal_fuel-digit : (f n : ℕ) → n < f → BeginsWithDigit (decimal_fuel f n)
decimal_fuel-digit zero n h = absurd (omega arith)
decimal_fuel-digit (suc f) n h = elim (Bool-cases (ltb n 10)) [
  | inl e ↦ (n, [], decimal_fuel-low f n e, ground arith)
  | inr e ↦
      let (d, ds, eq, small) = decimal_fuel-digit f (n / 10) (ground arith) in
      (d, ds ++ (b'0' + n % 10) ∷ [], rw (decimal_fuel-high f n e, eq), small)
]

-- The text begins with a digit.
pub decimal-BeginsWithDigit : (n : ℕ) → BeginsWithDigit (decimal n)
unfolding decimal
decimal-BeginsWithDigit n = decimal_fuel-digit (suc n) n (omega arith)

pub scan_digits-nil : (n : ℕ) → scan_digits n [] ≡ (n, [])
unfolding scan_digits
scan_digits-nil n = refl

decimal_fuel_no : (k f n : ℕ) → is_digit k ≡ false → All (λ c. (c == k) ≡ false) (decimal_fuel f n)
decimal_fuel_no k zero n h = unfold decimal_fuel in tt
decimal_fuel_no k (suc f) n h = elim (Bool-cases (ltb n 10)) [
  | inl e ↦ rw (decimal_fuel-low f n e) (ground arith, tt)
  | inr e ↦
      rw (decimal_fuel-high f n e)
        (All-append _ _ _ (decimal_fuel_no k f (n / 10) h) (ground arith, tt))
]

-- Only digits are printed.
pub decimal_no : (k n : ℕ) → is_digit k ≡ false → All (λ c. (c == k) ≡ false) (decimal n)
unfolding decimal
decimal_no k n = decimal_fuel_no k (suc n) n
