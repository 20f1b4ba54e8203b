-- ===== src/Log/OneLine.antt =====
-- The newlines in what a call of log_at of src/klog.c prints.
use tinyproxy.Base.{
  ℕ, ◌+◌, ◌==◌, ◌≡◌, refl, sym, ap, ◌∙◌, false, Bool-cases, inl, inr, List, [], ◌∷◌, ◌++◌,
  append_assoc, Option, none, some, arith, Bytes, All, All-append,
}
use tinyproxy.Text.Decimal.{decimal_no}
use tinyproxy.Conf.Address.RoundTrip.{Without}
use tinyproxy.Log.{
  ℤ, pos, negsuc, LogValue, log_value_str, log_value_int, log_value_uint, log_value_long,
  log_value_ulong, log_value_llong, log_value_ullong, log_value_endpoint, signed, escape, escaped,
  print_quoted_value, log_print_endpoint, print_log_value, LogContext, head_text, print_fields,
  log_at,
}
use tinyproxy.Log.RoundTrip.{ends_plain, IsPlain, IsClear}
use tinyproxy.Log.Line.{IsField, HeadWithout, head_text-Without}

escape-one_line : (c : ℕ) → Without b'\n' (escape c)
unfolding escape
escape-one_line c = elim (Bool-cases (c == b'\\')) [
  | inl h ↦ rw h (refl, (refl, tt))
  | inr h1 ↦ elim (Bool-cases (c == b'"')) [
    | inl h ↦ rw (h1, h) (refl, (refl, tt))
    | inr h2 ↦ elim (Bool-cases (c == b'\n')) [
      | inl h ↦ rw (h1, h2, h) (refl, (refl, tt))
      | inr h3 ↦ elim (Bool-cases (c == b'\r')) [
        | inl h ↦ rw (h1, h2, h3, h) (refl, (refl, tt))
        | inr h4 ↦ elim (Bool-cases (c == b'\t')) [
          | inl h ↦ rw (h1, h2, h3, h4, h) (refl, (refl, tt))
          | inr h5 ↦ rw (h1, h2, h3, h4, h5) (h3, tt)
        ]
      ]
    ]
  ]
]

escaped-one_line : (s : Bytes) → Without b'\n' (escaped s)
unfolding escaped
escaped-one_line [] = tt
escaped-one_line (c ∷ cs) =
    All-append _ (escape c) (escaped cs) (escape-one_line c) (escaped-one_line cs)

quoted-one_line : (s : Option Bytes) → Without b'\n' (print_quoted_value s)
unfolding print_quoted_value
quoted-one_line none = (refl, (refl, tt))
quoted-one_line (some s) = (refl, All-append _ (escaped s) _ (escaped-one_line s) (refl, tt))

signed-one_line : (i : ℤ) → Without b'\n' (signed i)
signed-one_line (pos n) = decimal_no b'\n' n refl
signed-one_line (negsuc n) = (refl, decimal_no b'\n' (n + 1) refl)

not_line : (c : ℕ) → ends_plain c ≡ false → (c == b'\n') ≡ false
not_line c h = ground arith

plain-one_line : (s : Bytes) → All (λ d. ends_plain d ≡ false) s → Without b'\n' s
plain-one_line [] h = tt
plain-one_line (c ∷ cs) h = (not_line c h.0, plain-one_line cs h.1)

clear-one_line : (s : Bytes) → IsPlain s → Without b'\n' s
clear-one_line [] h = tt
clear-one_line (c ∷ cs) h = plain-one_line (c ∷ cs) h.1

value-one_line : (v : LogValue) → IsClear v → Without b'\n' (print_log_value v)
unfolding print_log_value
value-one_line (log_value_str s) clear = quoted-one_line s
value-one_line (log_value_int i) clear = signed-one_line i
value-one_line (log_value_uint n) clear = decimal_no b'\n' n refl
value-one_line (log_value_long i) clear = signed-one_line i
value-one_line (log_value_ulong n) clear = decimal_no b'\n' n refl
value-one_line (log_value_llong i) clear = signed-one_line i
value-one_line (log_value_ullong n) clear = decimal_no b'\n' n refl
value-one_line (log_value_endpoint ep) clear = clear-one_line (log_print_endpoint ep) clear

fields-one_line :
    (fields : List (Bytes × LogValue)) → All IsField fields → Without b'\n' (print_fields fields)
unfolding print_fields
fields-one_line [] are = tt
fields-one_line ((key, value) ∷ fields) ((_, no_line, clear), are) = (
  refl,
  All-append _ key _ no_line (
    refl,
    All-append _ (print_log_value value) _ (value-one_line value clear)
        (fields-one_line fields are),
  ),
)

-- A call of log_at prints one line, whatever bytes its message and its texts are, if no newline
-- stands in its time, its severity and its file, no equals sign and no newline in a key, and each
-- endpoint, which is printed without quotes, has a text without spaces and newlines and with no quote
-- in front.
pub log_at-one_line :
    (ctx : LogContext) (sev line : ℕ) (file : Bytes) (msg : Option Bytes)
    (fields : List (Bytes × LogValue))
    → HeadWithout b'\n' ctx sev file
    → All IsField fields
    → (body : Bytes) × (log_at ctx sev file line msg fields ≡ body ++ b'\n' ∷ [])
      × Without b'\n' body
unfolding log_at
log_at-one_line ctx sev line file msg fields clean are =
    let head = head_text ctx sev file line in
    let quoted = print_quoted_value msg in
    (
      head ++ (quoted ++ print_fields fields),
      sym (
          append_assoc head (quoted ++ print_fields fields) (b'\n' ∷ [])
          ∙ ap (λ z. head ++ z) (append_assoc quoted (print_fields fields) (b'\n' ∷ []))),
      All-append _ head _
          (head_text-Without b'\n' ctx sev line file
            (
              refl,
              refl,
              refl,
              refl,
              refl,
              (refl, (refl, (refl, (refl, (refl, (refl, (refl, (refl, (refl, tt))))))))),
              (refl, (refl, (refl, (refl, (refl, tt))))),
            )
            clean)
          (All-append _ quoted _ (quoted-one_line msg) (fields-one_line fields are)),
    )
