-- ===== src/Text/Numbers.antt =====
-- strtoul and strtol in base 10, where `unsigned long` and `long` have 64 bits, and the two number
-- parsers of src/file_conf.c on top of them.
use tinyproxy.Base.{
  ℕ, ◌+◌, ◌-◌, ◌%◌, ◌^◌, ◌≤◌, ◌<◌, ◌≡◌, refl, ap, ◌∙◌, sym, Bool, true, false, not, ◌&&◌, ◌||◌, [],
  ◌∷◌, append-nil, Option, none, some, arith, ltb, ◌==◌, if◌then◌else◌, Bytes, Result, ok, err,
  einval, erange,
}
use tinyproxy.Text.{is_nil, is_space, skip_spaces}
use tinyproxy.Text.Decimal.{
  decimal, is_digit, scan_digits, scan_digits-decimal, scan_digits-nil, decimal-BeginsWithDigit,
}

-- The digits after an optional sign. `parsed` is false if there are none: then `rest` is the
-- whole input, as `endptr` is.
pub record Number : Type 0 where
  pub parsed : Bool
  pub negative : Bool
  pub magnitude : ℕ
  pub rest : Bytes

abbrev pub number_at : Bytes → Bool → Bytes → Number
number_at whole sign [] = record { parsed = false; negative = sign; magnitude = 0; rest = whole }
number_at whole sign (c ∷ cs) =
    let (m, rest) = scan_digits 0 (c ∷ cs) in
    if is_digit c
    then record { parsed = true; negative = sign; magnitude = m; rest = rest }
    else record { parsed = false; negative = sign; magnitude = 0; rest = whole }

abbrev pub after_sign : Bytes → Bytes → Number
after_sign whole [] = number_at whole false []
after_sign whole (c ∷ cs) =
    if c == b'-'
    then number_at whole true cs
    else if c == b'+'
    then number_at whole false cs
    else number_at whole false (c ∷ cs)

unfoldable pub read_number : Bytes → Number
unfolding skip_spaces
read_number s = after_sign s (skip_spaces s)

-- The value of a call, `*endptr`, and whether `errno` was set to ERANGE.
pub record Converted : Type 0 where
  pub result : ℕ
  pub end : Bytes
  pub out_of_range : Bool

abbrev pub ulong_mod : ℕ
ulong_mod = 2 ^ 64

-- A minus sign negates in the unsigned type.
unfoldable pub strtoul : Bytes → Converted
unfolding read_number
strtoul s =
    let n = read_number s in
    if ltb n.magnitude ulong_mod
    then record {
      result = if n.negative then (ulong_mod - n.magnitude) % ulong_mod else n.magnitude;
      end = n.rest;
      out_of_range = false;
    }
    else record { result = ulong_mod - 1; end = n.rest; out_of_range = true }

-- The checks of parse_port on the conversion of `s`.
port_of : Bytes → Converted → Option ℕ
port_of s v =
    if v.out_of_range || is_nil s || not (is_nil v.end) || v.result == 0 || ltb 65535 v.result
    then none
    else some v.result

-- The value of `*out`, or `none` for the return value -1.
unfoldable pub parse_port : Bytes → Option ℕ
unfolding port_of strtoul
parse_port s = port_of s (strtoul s)

abbrev pub int_max : ℕ
int_max = 2 ^ 31 - 1

-- `long v = strtol(s, &end, 10)`: `positive` is `v` where it is above 0, and 0 otherwise, which is
-- all that parse_positive_int distinguishes.
unfoldable pub strtol_positive : Bytes → Converted
unfolding read_number
strtol_positive s =
    let n = read_number s in
    if ltb n.magnitude (2 ^ 63) || (n.negative && n.magnitude == 2 ^ 63)
    then record {
      result = if n.negative then 0 else n.magnitude;
      end = n.rest;
      out_of_range = false;
    }
    else record { result = if n.negative then 0 else 2 ^ 63 - 1; end = n.rest; out_of_range = true }

-- The checks of parse_positive_int; `end == s` is a conversion of no digits.
positive_of : Bytes → Bool → Converted → Result ℕ
positive_of s has_digits v =
    if is_nil s
    then err einval
    else if v.out_of_range || not has_digits || not (is_nil v.end)
    then err einval
    else if v.result == 0 || ltb int_max v.result
    then err erange
    else ok v.result

unfoldable pub parse_positive_int : Bytes → Result ℕ
unfolding positive_of strtol_positive
parse_positive_int s = positive_of s (read_number s).parsed (strtol_positive s)

read_number-digits :
    (d : ℕ) (ds : Bytes) (n : ℕ) (rest : Bytes)
    → d < 10
    → scan_digits 0 ((b'0' + d) ∷ ds) ≡ (n, rest)
    → read_number ((b'0' + d) ∷ ds)
      ≡ record { parsed = true; negative = false; magnitude = n; rest = rest }
unfolding read_number
read_number-digits d ds n rest small scanned =
    let no_space : is_space (b'0' + d) ≡ false = ground arith in
    let no_minus : (b'0' + d == b'-') ≡ false = ground arith in
    let no_plus : (b'0' + d == b'+') ≡ false = ground arith in
    let digit : is_digit (b'0' + d) ≡ true = ground arith in
    rw (no_space, no_minus, no_plus, digit, scanned)

-- The decimal text of a number is read back whole.
read_number-decimal :
    (n : ℕ)
    → read_number (decimal n) ≡ record { parsed = true; negative = false; magnitude = n; rest = [] }
read_number-decimal n =
    let (d, ds, e, small) = decimal-BeginsWithDigit n in
    let scanned : scan_digits 0 ((b'0' + d) ∷ ds) ≡ (n, []) =
      ap (scan_digits 0) (sym e ∙ sym (append-nil _))
      ∙ scan_digits-decimal n []
      ∙ scan_digits-nil n in
    rw e (read_number-digits d ds n [] small scanned)

pub strtoul-decimal :
    (n : ℕ)
    → n < ulong_mod
    → strtoul (decimal n) ≡ record { result = n; end = []; out_of_range = false }
unfolding strtoul
strtoul-decimal n small =
    let in_range : ltb n ulong_mod ≡ true = ground arith in rw (read_number-decimal n, in_range)

pub parse_port-decimal : (n : ℕ) → 0 < n → n ≤ 65535 → parse_port (decimal n) ≡ some n
unfolding parse_port
parse_port-decimal n pos small =
    let (d, ds, e, _) = decimal-BeginsWithDigit n in
    let in_range : ltb n ulong_mod ≡ true = ground arith in
    let nonempty : is_nil (decimal n) ≡ false = rw e refl in
    let accepted : (n == 0 || ltb 65535 n) ≡ false = ground arith in
    rw (read_number-decimal n, in_range, nonempty, accepted)

port_of_bounds : (s : Bytes) (v : Converted) {p : ℕ} → port_of s v ≡ some p → (0 < p) × (p ≤ 65535)
unfolding port_of
port_of_bounds s v h = ground arith

-- An accepted port is one of 1 to 65535.
pub parse_port_bounds : (s : Bytes) {v : ℕ} → parse_port s ≡ some v → (0 < v) × (v ≤ 65535)
unfolding parse_port
parse_port_bounds s = port_of_bounds s (strtoul s)

pub parse_positive_int-decimal :
    (n : ℕ) → 0 < n → n ≤ int_max → parse_positive_int (decimal n) ≡ ok n
unfolding parse_positive_int
parse_positive_int-decimal n pos small =
    let (d, ds, e, _) = decimal-BeginsWithDigit n in
    let in_range : ltb n (2 ^ 63) ≡ true = ground arith in
    let nonempty : is_nil (decimal n) ≡ false = rw e refl in
    let accepted : (n == 0 || ltb int_max n) ≡ false = ground arith in
    rw (nonempty, read_number-decimal n, in_range, accepted)

positive_of_bounds :
    (s : Bytes) (has_digits : Bool) (v : Converted) {n : ℕ}
    → positive_of s has_digits v ≡ ok n
    → (0 < n) × (n ≤ int_max)
unfolding positive_of
positive_of_bounds s has_digits v h = ground arith

pub parse_positive_int_bounds :
    (s : Bytes) {v : ℕ} → parse_positive_int s ≡ ok v → (0 < v) × (v ≤ int_max)
unfolding parse_positive_int
parse_positive_int_bounds s = positive_of_bounds s (read_number s).parsed (strtol_positive s)
