-- ===== src/Log/Line.antt =====
-- The line of one call of log_at of src/klog.c, and a reader of it.
use tinyproxy.Base.{
  ℕ, zero, suc, ◌-◌, ◌==◌, ◌<◌, ◌≤◌, ◌≡◌, refl, sym, ap, ◌∙◌, false, List, [], ◌∷◌, ◌++◌,
  append_assoc, Option, none, some, if◌then◌else◌, arith, Bytes, codes, length, length-append, All,
  All-append,
}
use tinyproxy.Text.{is_nil, strchr}
use tinyproxy.Text.Decimal.{decimal, decimal_no, is_digit}
use tinyproxy.Conf.Address.RoundTrip.{Without, strchr-append}
use tinyproxy.Log.{
  LogValue, escaped, print_quoted_value, print_log_value, filled, LogContext, head_text,
  print_fields, log_at,
}
use tinyproxy.Log.RoundTrip.{
  read_value, text_or_empty, print_quoted_value-read, Stops, value_text, IsClear, value-read,
}

abbrev Fields : Type 0
Fields = List (Bytes × Bytes)

abbrev push_field : Bytes → Bytes → Option Fields → Option Fields
push_field key text none = none
push_field key text (some fields) = some ((key, text) ∷ fields)

abbrev value_then : Bytes → Option (Bytes × Bytes) → (Bytes → Option Fields) → Option Fields
value_then key none next = none
value_then key (some (text, rest)) next = push_field key text (next rest)

abbrev key_then : Option (Bytes × Bytes) → (Bytes → Option Fields) → Option Fields
unfolding read_value
key_then none next = none
key_then (some (key, rest)) next = value_then key (read_value rest) next

-- ` key=value` so many times, and the newline at the end.
unfoldable pub read_fields : ℕ → Bytes → Option (List (Bytes × Bytes))
unfolding strchr key_then
read_fields zero s = none
read_fields (suc rounds) [] = none
read_fields (suc rounds) (c ∷ cs) =
    if c == b'\n'
    then (if is_nil cs then some [] else none)
    else if c == b' '
    then key_then (strchr b'=' cs) (read_fields rounds)
    else none

abbrev pub field_texts : List (Bytes × LogValue) → List (Bytes × Bytes)
field_texts [] = []
field_texts ((key, value) ∷ fields) = (key, value_text value) ∷ field_texts fields

-- Keys have no equals sign and no newline.
abbrev pub IsField : Bytes × LogValue → Type 0
IsField (key, value) = Without b'=' key × Without b'\n' key × IsClear value

fields-Stops : (fields : List (Bytes × LogValue)) → Stops (print_fields fields ++ b'\n' ∷ [])
unfolding print_fields
fields-Stops [] = refl
fields-Stops ((key, value) ∷ fields) = refl

print_fields-read :
    (fields : List (Bytes × LogValue)) (rounds : ℕ)
    → length fields < rounds
    → All IsField fields
    → read_fields rounds (print_fields fields ++ b'\n' ∷ []) ≡ some (field_texts fields)
unfolding print_fields read_fields key_then
print_fields-read fields zero enough are = absurd (omega arith)
print_fields-read [] (suc rounds) enough are = refl
print_fields-read ((key, value) ∷ fields) (suc rounds) enough ((no_equals, no_line, clear), are) =
    let rest = print_fields fields ++ b'\n' ∷ [] in
    let text = print_log_value value in
    let split : (key ++ (b'=' ∷ (text ++ print_fields fields))) ++ b'\n' ∷ []
        ≡ key ++ (b'=' ∷ (text ++ rest)) =
      append_assoc key (b'=' ∷ (text ++ print_fields fields)) (b'\n' ∷ [])
      ∙ ap (λ z. key ++ (b'=' ∷ z)) (append_assoc text (print_fields fields) (b'\n' ∷ [])) in
    ap (λ z. key_then (strchr b'=' z) (read_fields rounds)) split
    ∙ ap (λ z. key_then z (read_fields rounds)) (strchr-append b'=' key (text ++ rest) no_equals)
    ∙ ap (λ z. value_then key z (read_fields rounds))
        (value-read value rest clear (fields-Stops fields))
    ∙ ap (push_field key (value_text value)) (print_fields-read fields rounds (omega arith) are)

-- The text from the first quote on.
unfoldable pub skip_to_quote : Bytes → Bytes
skip_to_quote [] = []
skip_to_quote (c ∷ cs) = if c == b'"' then c ∷ cs else skip_to_quote cs

abbrev message_and : Bytes → Option Fields → Option (Bytes × Fields)
message_and msg none = none
message_and msg (some fields) = some (msg, fields)

abbrev read_message : Option (Bytes × Bytes) → Option (Bytes × Fields)
unfolding read_fields
read_message none = none
read_message (some (msg, rest)) = message_and msg (read_fields (suc (length rest)) rest)

-- The message, the first quoted text of a line, and the fields behind it.
unfoldable pub read_log : Bytes → Option (Bytes × List (Bytes × Bytes))
unfolding read_value skip_to_quote read_message
read_log line = read_message (read_value (skip_to_quote line))

skip-append :
    (head : Bytes) (rest : Bytes)
    → Without b'"' head
    → skip_to_quote (head ++ b'"' ∷ rest) ≡ b'"' ∷ rest
unfolding skip_to_quote
skip-append [] rest none_there = refl
skip-append (c ∷ cs) rest none_there = rw (none_there.0) (skip-append cs rest none_there.1)

print_quoted-front : (s : Option Bytes) → (tail : Bytes) × (print_quoted_value s ≡ b'"' ∷ tail)
unfolding print_quoted_value
print_quoted-front none = (b'"' ∷ [], refl)
print_quoted-front (some s) = (escaped s ++ b'"' ∷ [], refl)

-- Every field takes a byte of the line.
fields-length : (fields : List (Bytes × LogValue)) → length fields ≤ length (print_fields fields)
unfolding print_fields
fields-length [] = omega arith
fields-length ((key, value) ∷ fields) =
    let tail = b'=' ∷ (print_log_value value ++ print_fields fields) in
    omega (
      arith,
      fields-length fields,
      length-append key tail,
      length-append (print_log_value value) (print_fields fields),
    )

filled-Without :
    (k c n : ℕ) (text : Bytes) → (c == k) ≡ false → Without k text → Without k (filled c n text)
unfolding filled
filled-Without k c zero text other without = without
filled-Without k c (suc n) text other without = (other, filled-Without k c n text other without)

-- The bytes that log_at is given from outside lack `k`.
abbrev pub HeadWithout : ℕ → LogContext → ℕ → Bytes → Type 0
HeadWithout k ctx sev file = ((sev == k) ≡ false) × Without k ctx.tbuf × Without k file

-- What stands between them, with the digit that fills up.
abbrev pub Other : ℕ → Type 0
Other k =
    (is_digit k ≡ false)
    × ((b'.' == k) ≡ false)
    × ((b' ' == k) ≡ false)
    × ((b':' == k) ≡ false)
    × ((b'0' == k) ≡ false)
    × Without k (codes "] worker=")
    × Without k (codes " msg=")

pub head_text-Without :
    (k : ℕ) (ctx : LogContext) (sev line : ℕ) (file : Bytes)
    → Other k
    → HeadWithout k ctx sev file
    → Without k (head_text ctx sev file line)
unfolding head_text
head_text-Without k ctx sev line file (digit, dot, space, colon, nought, worker, message)
      (s, t, f) =
    (s, All-append _ ctx.tbuf _ t (dot, All-append _ usec _ no_usec (space, after_usec)))
  where
    usec : Bytes
    usec = filled b'0' (6 - length (decimal ctx.usec)) (decimal ctx.usec)

    no_usec : Without k usec
    no_usec = filled-Without k b'0' _ (decimal ctx.usec) nought (decimal_no k ctx.usec digit)

    pid : Bytes
    pid = filled b' ' (7 - length (decimal ctx.pid)) (decimal ctx.pid)

    no_pid : Without k pid
    no_pid = filled-Without k b' ' _ (decimal ctx.pid) space (decimal_no k ctx.pid digit)

    numbers : Bytes
    numbers = decimal line ++ (codes "] worker=" ++ (decimal ctx.worker_id ++ codes " msg="))

    no_numbers : Without k numbers
    no_numbers = All-append _ (decimal line) _ (decimal_no k line digit) (
        All-append _ (codes "] worker=") _ worker
          (All-append _ (decimal ctx.worker_id) _ (decimal_no k ctx.worker_id digit) message))

    after_usec : Without k (pid ++ (b' ' ∷ (file ++ (b':' ∷ numbers))))
    after_usec = All-append _ pid _ no_pid (space, All-append _ file _ f (colon, no_numbers))

-- A line with a message and fields is read back by an independent reader as that message and the
-- fields, each key with its text, if no quote stands in what the line has before its message, no
-- equals sign and no newline in a key, and each endpoint, which is printed without quotes, has a text
-- without spaces and newlines and with no quote in front.
pub log_at-read :
    (ctx : LogContext) (sev line : ℕ) (file : Bytes) (msg : Option Bytes)
    (fields : List (Bytes × LogValue))
    → HeadWithout b'"' ctx sev file
    → All IsField fields
    → read_log (log_at ctx sev file line msg fields) ≡ some (text_or_empty msg, field_texts fields)
unfolding log_at read_log read_message
log_at-read ctx sev line file msg fields clean are =
    let (tail, front) = print_quoted-front msg in
    let rest = print_fields fields ++ b'\n' ∷ [] in
    let head = head_text ctx sev file line in
    let no_quote =
      head_text-Without b'"' ctx sev line file
        (
          refl,
          refl,
          refl,
          refl,
          refl,
          (refl, (refl, (refl, (refl, (refl, (refl, (refl, (refl, (refl, tt))))))))),
          (refl, (refl, (refl, (refl, (refl, tt))))),
        )
        clean in
    let skipped : skip_to_quote (head ++ (print_quoted_value msg ++ rest))
        ≡ print_quoted_value msg ++ rest =
      ap (λ z. skip_to_quote (head ++ (z ++ rest))) front
      ∙ skip-append head (tail ++ rest) no_quote
      ∙ ap (λ z. z ++ rest) (sym front) in
    let enough : length fields < suc (length rest) =
      omega (arith, fields-length fields, length-append (print_fields fields) (b'\n' ∷ [])) in
    ap (λ z. read_message (read_value z)) skipped
    ∙ ap read_message (print_quoted_value-read msg rest)
    ∙ ap (message_and (text_or_empty msg)) (print_fields-read fields (suc (length rest)) enough are)
