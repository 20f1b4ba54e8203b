-- ===== src/Text.antt =====
-- What the modelled sources use of <string.h>, <ctype.h>, <stdlib.h> and <stdio.h> on C strings: a
-- string is the list of its bytes before the NUL, and a pointer into it is the rest from there.
pub mod Decimal
pub mod Numbers
pub mod Tests
use tinyproxy.Base.{
  ℕ, suc, ◌+◌, ◌-◌, Bool, true, false, ◌&&◌, ◌||◌, List, [], ◌∷◌, Option, none, some, leb, ◌==◌,
  if◌then◌else◌, Bytes, take,
}

-- isspace in the C locale
abbrev pub is_space : ℕ → Bool
is_space c = leb 9 c && leb c 13 || c == b' '

abbrev pub is_nil {ℓ} : {A : Type ℓ} → List A → Bool
is_nil [] = true
is_nil (x ∷ xs) = false

-- The bytes that a C string function sees of a buffer: those before the first NUL.
unfoldable pub c_string : Bytes → Bytes
c_string [] = []
c_string (c ∷ cs) = if c == 0 then [] else c ∷ c_string cs

-- `while (isspace(*s)) s++;`
unfoldable pub skip_spaces : Bytes → Bytes
skip_spaces [] = []
skip_spaces (c ∷ cs) = if is_space c then skip_spaces cs else c ∷ cs

-- The spaces at the end cut off.
unfoldable pub cut_spaces : Bytes → Bytes
cut_spaces [] = []
cut_spaces (c ∷ cs) = let rest = cut_spaces cs in if is_space c && is_nil rest then [] else c ∷ rest

-- The loop of trim leaves the byte at `s` alone (`end > s`).
abbrev pub cut_end : Bytes → Bytes
cut_end [] = []
cut_end (c ∷ cs) = c ∷ cut_spaces cs

-- trim of src/file_conf.c
unfoldable pub trim : Bytes → Bytes
unfolding skip_spaces cut_spaces
trim s = cut_end (skip_spaces s)

abbrev pub push_before : ℕ → Option (Bytes × Bytes) → Option (Bytes × Bytes)
push_before c none = none
push_before c (some (a, b)) = some (c ∷ a, b)

-- strchr: what stands before the first `k`, and what stands behind it.
unfoldable pub strchr : ℕ → Bytes → Option (Bytes × Bytes)
strchr k [] = none
strchr k (c ∷ cs) = if c == k then some ([], cs) else push_before c (strchr k cs)

abbrev pub push_first : ℕ → List Bytes → List Bytes
push_first c [] = (c ∷ []) ∷ []
push_first c (w ∷ ws) = (c ∷ w) ∷ ws

-- The string cut at each delimiter.
unfoldable pub pieces : (ℕ → Bool) → Bytes → List Bytes
pieces d [] = [] ∷ []
pieces d (c ∷ cs) = if d c then [] ∷ pieces d cs else push_first c (pieces d cs)

unfoldable pub drop_empty : List Bytes → List Bytes
drop_empty [] = []
drop_empty (w ∷ ws) = if is_nil w then drop_empty ws else w ∷ drop_empty ws

-- The tokens that a loop over strtok_r gives.
unfoldable pub tokens : (ℕ → Bool) → Bytes → List Bytes
unfolding pieces drop_empty
tokens d s = drop_empty (pieces d s)

-- What snprintf leaves in a buffer of `n` bytes.
abbrev pub snprintf_text : ℕ → Bytes → Bytes
snprintf_text n text = take (n - 1) text
