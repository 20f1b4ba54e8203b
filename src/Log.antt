-- ===== src/Log.antt =====
-- src/klog.c and src/klog.h: the lines of the log.
pub mod RoundTrip
pub mod Line
pub mod OneLine
pub mod Sockaddr
pub mod Tests
use tinyproxy.Base.{
  ℕ, zero, suc, ◌+◌, ◌-◌, ◌==◌, Bool, true, false, List, [], ◌∷◌, ◌++◌, Option, none, some,
  if◌then◌else◌, Bytes, codes, length, Errno, einval, Result, ok, err,
}
use tinyproxy.Text.Decimal.{decimal}
use tinyproxy.Endpoint.{Endpoint, endpoint_to_string}

-- The integers, with `negsuc n` for -(n + 1).
pub data ℤ : Type 0 where
  pos negsuc : ℕ → ℤ

-- `struct log_value`; a string or an endpoint is `none` for NULL.
pub data LogValue : Type 0 where
  log_value_str : Option Bytes → LogValue
  log_value_int : ℤ → LogValue
  log_value_uint : ℕ → LogValue
  log_value_long : ℤ → LogValue
  log_value_ulong : ℕ → LogValue
  log_value_llong : ℤ → LogValue
  log_value_ullong : ℕ → LogValue
  log_value_endpoint : Option Endpoint → LogValue

-- The conversions `%d`, `%ld` and `%lld`.
abbrev pub signed : ℤ → Bytes
signed (pos n) = decimal n
signed (negsuc n) = b'-' ∷ decimal (n + 1)

-- What is printed for a byte between the quotes.
unfoldable pub escape : ℕ → Bytes
escape c =
    if c == b'\\'
    then b'\\' ∷ b'\\' ∷ []
    else if c == b'"'
    then b'\\' ∷ b'"' ∷ []
    else if c == b'\n'
    then b'\\' ∷ b'n' ∷ []
    else if c == b'\r'
    then b'\\' ∷ b'r' ∷ []
    else if c == b'\t'
    then b'\\' ∷ b't' ∷ []
    else c ∷ []

unfoldable pub escaped : Bytes → Bytes
unfolding escape
escaped [] = []
escaped (c ∷ cs) = escape c ++ escaped cs

unfoldable pub print_quoted_value : Option Bytes → Bytes
unfolding escaped
print_quoted_value none = b'"' ∷ b'"' ∷ []
print_quoted_value (some s) = b'"' ∷ (escaped s ++ b'"' ∷ [])

abbrev pub text_of : Result Bytes → Bytes
text_of (ok text) = text
text_of (err e) = []

-- The buffer has 256 bytes, so that endpoint_to_string does not fail.
unfoldable pub log_print_endpoint : Option Endpoint → Bytes
unfolding endpoint_to_string
log_print_endpoint ep = text_of (endpoint_to_string ep 256)

unfoldable pub print_log_value : LogValue → Bytes
unfolding print_quoted_value log_print_endpoint
print_log_value (log_value_str s) = print_quoted_value s
print_log_value (log_value_int i) = signed i
print_log_value (log_value_uint n) = decimal n
print_log_value (log_value_long i) = signed i
print_log_value (log_value_ulong n) = decimal n
print_log_value (log_value_llong i) = signed i
print_log_value (log_value_ullong n) = decimal n
print_log_value (log_value_endpoint ep) = log_print_endpoint ep

-- `text` filled up with `c` in front.
unfoldable pub filled : ℕ → ℕ → Bytes → Bytes
filled c zero text = text
filled c (suc n) text = c ∷ filled c n text

-- What log_at takes from its surroundings: the time by strftime, its microseconds, the process, and
-- the number of the worker as the unsigned number that is printed.
pub record LogContext : Type 0 where
  pub tbuf : Bytes
  pub usec : ℕ
  pub pid : ℕ
  pub worker_id : ℕ

abbrev pub head_text : LogContext → ℕ → Bytes → ℕ → Bytes
unfolding filled
head_text ctx sev file line =
    sev
    ∷ (ctx.tbuf
        ++ (b'.'
            ∷ (filled b'0' (6 - length (decimal ctx.usec)) (decimal ctx.usec)
                ++ (b' '
                    ∷ (filled b' ' (7 - length (decimal ctx.pid)) (decimal ctx.pid)
                        ++ (b' '
                            ∷ (file
                                ++ (b':'
                                    ∷ (decimal line
                                        ++ (codes "] worker="
                                            ++ (decimal ctx.worker_id ++ codes " msg=")))))))))))

-- The loop over the fields, up to the key that is NULL.
unfoldable pub print_fields : List (Bytes × LogValue) → Bytes
unfolding print_log_value
print_fields [] = []
print_fields ((key, value) ∷ fields) =
    b' ' ∷ (key ++ (b'=' ∷ (print_log_value value ++ print_fields fields)))

-- What is printed under the lock.
unfoldable pub log_at : LogContext → ℕ → Bytes → ℕ → Option Bytes → List (Bytes × LogValue) → Bytes
unfolding print_quoted_value print_fields head_text
log_at ctx sev file line msg fields =
    head_text ctx sev file line ++ (print_quoted_value msg ++ (print_fields fields ++ b'\n' ∷ []))

-- `log_mu_ready`, and the error of compat_mutex_init; the return code is `none` for 0.
unfoldable pub klog_init : Option Errno → Bool → Option Errno × Bool
klog_init mutex_init true = (none, true)
klog_init none false = (none, true)
klog_init (some e) false = (some e, false)

unfoldable pub klog_free : Bool → Bool
klog_free log_mu_ready = false
