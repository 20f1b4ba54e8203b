-- ===== src/Log/RoundTrip.antt =====
-- Readers of the lines of src/klog.c.
use tinyproxy.Base.{
  ℕ, ◌+◌, ◌==◌, ◌≡◌, refl, ap, ◌∙◌, Bool, true, false, ◌||◌, Bool-cases, inl, inr, [], ◌∷◌, ◌++◌,
  append_assoc, Option, none, some, if◌then◌else◌, arith, Bytes, All,
}
use tinyproxy.Text.Decimal.{decimal, decimal_no}
use tinyproxy.Log.{
  ℤ, pos, negsuc, LogValue, log_value_str, log_value_int, log_value_uint, log_value_long,
  log_value_ulong, log_value_llong, log_value_ullong, log_value_endpoint, signed, escape, escaped,
  print_quoted_value, log_print_endpoint, print_log_value,
}

-- What the letter behind a backslash stands for.
abbrev pub unescape : ℕ → ℕ
unescape c =
    if c == b'n' then b'\n' else if c == b'r' then b'\r' else if c == b't' then b'\t' else c

abbrev push_on : ℕ → Option (Bytes × Bytes) → Option (Bytes × Bytes)
push_on c none = none
push_on c (some (s, rest)) = some (c ∷ s, rest)

-- The text up to the quote that ends it, and what follows; `back` behind a backslash.
unfoldable pub read_quoted : Bool → Bytes → Option (Bytes × Bytes)
read_quoted back [] = none
read_quoted true (c ∷ cs) = push_on (unescape c) (read_quoted false cs)
read_quoted false (c ∷ cs) =
    let on = read_quoted (c == b'\\') cs in
    if c == b'"' then some ([], cs) else if c == b'\\' then on else push_on c on

abbrev pub ends_plain : ℕ → Bool
ends_plain c = c == b' ' || c == b'\n'

-- The bytes before a space or the end of the line, and what follows.
unfoldable pub read_plain : Bytes → Bytes × Bytes
read_plain [] = ([], [])
read_plain (c ∷ cs) =
    let (s, rest) = read_plain cs in if ends_plain c then ([], c ∷ cs) else (c ∷ s, rest)

unfoldable pub read_value : Bytes → Option (Bytes × Bytes)
unfolding read_quoted read_plain
read_value [] = some ([], [])
read_value (c ∷ cs) = if c == b'"' then read_quoted false cs else some (read_plain (c ∷ cs))

read_quoted-escape :
    (c : ℕ) (rest : Bytes)
    → read_quoted false (escape c ++ rest) ≡ push_on c (read_quoted false rest)
unfolding read_quoted escape
read_quoted-escape c rest = elim (Bool-cases (c == b'\\')) [
  | inl h ↦ let here : c ≡ b'\\' = ground arith in rw here refl
  | inr h1 ↦ elim (Bool-cases (c == b'"')) [
    | inl h ↦ let here : c ≡ b'"' = ground arith in rw here refl
    | inr h2 ↦ elim (Bool-cases (c == b'\n')) [
      | inl h ↦ let here : c ≡ b'\n' = ground arith in rw here refl
      | inr h3 ↦ elim (Bool-cases (c == b'\r')) [
        | inl h ↦ let here : c ≡ b'\r' = ground arith in rw here refl
        | inr h4 ↦ elim (Bool-cases (c == b'\t')) [
          | inl h ↦ let here : c ≡ b'\t' = ground arith in rw here refl
          | inr h5 ↦ rw (h1, h2, h3, h4, h5) (rw (h1, h2) refl)
        ]
      ]
    ]
  ]
]

read_quoted-escaped :
    (s rest : Bytes) → read_quoted false (escaped s ++ (b'"' ∷ rest)) ≡ some (s, rest)
unfolding escaped read_quoted
read_quoted-escaped [] rest = refl
read_quoted-escaped (c ∷ cs) rest =
    ap (read_quoted false) (append_assoc (escape c) (escaped cs) (b'"' ∷ rest))
    ∙ read_quoted-escape c (escaped cs ++ (b'"' ∷ rest))
    ∙ ap (push_on c) (read_quoted-escaped cs rest)

abbrev pub text_or_empty : Option Bytes → Bytes
text_or_empty none = []
text_or_empty (some s) = s

-- A quoted value is read back, whatever its bytes are and whatever follows it.
pub print_quoted_value-read :
    (s : Option Bytes) (rest : Bytes)
    → read_value (print_quoted_value s ++ rest) ≡ some (text_or_empty s, rest)
unfolding print_quoted_value read_value read_quoted
print_quoted_value-read none rest = refl
print_quoted_value-read (some s) rest =
    ap (read_quoted false) (append_assoc (escaped s) (b'"' ∷ []) rest) ∙ read_quoted-escaped s rest

-- No space, no newline, and no quote in front.
abbrev pub IsPlain : Bytes → Type 0
IsPlain [] = Unit
IsPlain (c ∷ cs) = ((c == b'"') ≡ false) × All (λ d. ends_plain d ≡ false) (c ∷ cs)

abbrev pub Stops : Bytes → Type 0
Stops [] = Unit
Stops (c ∷ cs) = ends_plain c ≡ true

read_plain-append :
    (s rest : Bytes)
    → All (λ d. ends_plain d ≡ false) s
    → Stops rest
    → read_plain (s ++ rest) ≡ (s, rest)
unfolding read_plain
read_plain-append [] [] plain stops = refl
read_plain-append [] (c ∷ cs) plain stops = rw stops refl
read_plain-append (c ∷ cs) rest plain stops =
    rw (plain.0, read_plain-append cs rest plain.1 stops) refl

plain-read : (s rest : Bytes) → IsPlain s → Stops rest → read_value (s ++ rest) ≡ some (s, rest)
unfolding read_value
plain-read [] [] plain stops = refl
plain-read [] (c ∷ cs) plain stops =
    let no_quote : (c == b'"') ≡ false = ground arith in rw (no_quote, stops) refl
plain-read (c ∷ cs) rest plain stops =
    rw (plain.0) (ap some (read_plain-append (c ∷ cs) rest plain.1 stops))

pub every_plain :
    (s : Bytes)
    → All (λ d. (d == b' ') ≡ false) s
    → All (λ d. (d == b'\n') ≡ false) s
    → All (λ d. ends_plain d ≡ false) s
every_plain [] spaces lines = tt
every_plain (c ∷ cs) spaces lines = (rw (spaces.0, lines.0) refl, every_plain cs spaces.1 lines.1)

pub decimal-IsPlain : (n : ℕ) → IsPlain (decimal n)
decimal-IsPlain n =
    by_text (decimal n) (decimal_no b'"' n refl)
      (every_plain (decimal n) (decimal_no b' ' n refl) (decimal_no b'\n' n refl))
  where
    by_text :
        (s : Bytes)
        → All (λ d. (d == b'"') ≡ false) s
        → All (λ d. ends_plain d ≡ false) s
        → IsPlain s
    by_text [] quotes plain = tt
    by_text (c ∷ cs) quotes plain = (quotes.0, plain)

pub signed-IsPlain : (i : ℤ) → IsPlain (signed i)
signed-IsPlain (pos n) = decimal-IsPlain n
signed-IsPlain (negsuc n) = (
  refl,
  (
    refl,
    every_plain (decimal (n + 1)) (decimal_no b' ' (n + 1) refl) (decimal_no b'\n' (n + 1) refl),
  ),
)

-- A value as it is read: the text itself, and the digits of a number.
abbrev pub value_text : LogValue → Bytes
value_text (log_value_str s) = text_or_empty s
value_text v = print_log_value v

-- The text of an endpoint, which is printed without quotes, has no space, no newline, and no quote in
-- front.
abbrev pub IsClear : LogValue → Type 0
IsClear (log_value_endpoint ep) = IsPlain (log_print_endpoint ep)
IsClear v = Unit

pub value-read :
    (v : LogValue) (rest : Bytes)
    → IsClear v
    → Stops rest
    → read_value (print_log_value v ++ rest) ≡ some (value_text v, rest)
unfolding print_log_value
value-read (log_value_str s) rest clear stops = print_quoted_value-read s rest
value-read (log_value_int i) rest clear stops = plain-read (signed i) rest (signed-IsPlain i) stops
value-read (log_value_uint n) rest clear stops =
    plain-read (decimal n) rest (decimal-IsPlain n) stops
value-read (log_value_long i) rest clear stops = plain-read (signed i) rest (signed-IsPlain i) stops
value-read (log_value_ulong n) rest clear stops =
    plain-read (decimal n) rest (decimal-IsPlain n) stops
value-read (log_value_llong i) rest clear stops =
    plain-read (signed i) rest (signed-IsPlain i) stops
value-read (log_value_ullong n) rest clear stops =
    plain-read (decimal n) rest (decimal-IsPlain n) stops
value-read (log_value_endpoint ep) rest clear stops =
    plain-read (log_print_endpoint ep) rest clear stops
