-- ===== src/Sniff/Reader.antt =====
-- The enum, the constants and the byte reads of src/stream_sniff.c. A read past the `len` bytes that
-- the parser was given is a `fault`.
pub mod Agree
use tinyproxy.Base.{
  ℕ, ◌+◌, ◌*◌, Bool, true, false, Option, none, some, ◌==◌, if◌then◌else◌, Bytes, length, get_elem?,
  take, drop,
}

pub data SniffStatus : Type 0 where
  not_observed need_more parsed missing not_tls truncated name_too_long parse_error : SniffStatus

-- STREAM_SNIFF_MAX and STREAM_SNI_MAX
abbrev pub stream_sniff_max : ℕ
stream_sniff_max = 8192

abbrev pub stream_sni_max : ℕ
stream_sni_max = 253

-- What a call of the parser leaves behind: the value returned, `*need_more`, and the C string
-- written to `out`, if one was.
pub record Answer : Type 0 where
  pub status : SniffStatus
  pub wants_more : Bool
  pub out : Option Bytes

abbrev pub stopped : SniffStatus → Answer
stopped s = record { status = s; wants_more = false; out = none }

abbrev pub starved : Answer
starved = record { status = need_more; wants_more = true; out = none }

-- A part of the parser goes on with a value, returns from the function, reads out of bounds, or
-- has used up the rounds it was given.
pub data Parse (A : Type 0) : Type 0 where
  value : A → Parse A
  answer : Answer → Parse A
  fault no_fuel : Parse A

infixl 5 ◌>>=◌ ◌>>◌
unfoldable pub ◌>>=◌ : {A B : Type 0} → Parse A → (A → Parse B) → Parse B
value a >>= f = f a
answer w >>= f = answer w
fault >>= f = fault
no_fuel >>= f = no_fuel

-- `if (test) return status;`
unfoldable pub stop_if : Bool → Answer → Parse (Unit {0})
stop_if true w = answer w
stop_if false w = value tt

unfoldable pub ◌>>◌ : {B : Type 0} → Parse (Unit {0}) → Parse B → Parse B
unfolding ◌>>=◌
m >> k = m >>= λ _. k

unfoldable pub byte_at : Bytes → ℕ → Parse ℕ
byte_at buf i = elim (get_elem? buf i) [ none ↦ fault | some c ↦ value c ]

-- The operands of `|` are bytes shifted apart, so `|` is a sum.
unfoldable pub read_u16_be : Bytes → ℕ → Parse ℕ
read_u16_be buf p = do a ← byte_at buf p; b ← byte_at buf (p + 1); value (a * 256 + b)

unfoldable pub read_u24_be : Bytes → ℕ → Parse ℕ
read_u24_be buf p = do
  a ← byte_at buf p
  b ← byte_at buf (p + 1)
  c ← byte_at buf (p + 2)
  value (a * 65536 + b * 256 + c)

-- The `n` bytes from `p`, all of which must be there.
unfoldable pub slice_at : Bytes → ℕ → ℕ → Parse Bytes
slice_at buf p n = let name = take n (drop p buf) in if length name == n then value name else fault
