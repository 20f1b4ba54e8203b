-- ===== src/Log/Tests.antt =====
-- Lines of src/klog.c.
use tinyproxy.Endpoint.{Endpoint, tcp, blank, endpoint_to_string}
use tinyproxy.Endpoint.Sockaddr.{endpoint_to_sockaddr}
use tinyproxy.Proxy.{put_u16}
use tinyproxy.Log.Sockaddr.{sockaddr_format, sockaddr_format-endpoint_to_sockaddr}
use tinyproxy.Base.{
  Option, none, arith, length, ok, if◌then◌else◌, ℕ, ◌==◌, ◌≡◌, ◌≢◌, refl, sym, ap, ◌∙◌, Bool, true,
  false, not, ◌&&◌, Bool-cases, inl, inr, All, [], ◌∷◌, ◌++◌, some, Bytes, codes, List,
}
use tinyproxy.Text.Decimal.{decimal}
use tinyproxy.Conf.Address.RoundTrip.{Without}
use tinyproxy.Log.{
  LogValue, log_value_str, log_value_int, negsuc, LogContext, log_at, print_quoted_value,
}
use tinyproxy.Log.Line.{IsField, field_texts, read_log, log_at-read}
use tinyproxy.Log.OneLine.{log_at-one_line}

-- A name with a quote and a newline stays in its quotes.
forged : print_quoted_value (some (codes "a\"\nE")) ≡ codes "\"a\\\"\\nE\""
unfolding print_quoted_value
forged = refl

abbrev ctx : LogContext
ctx = record { tbuf = codes "1125 21:20:00"; usec = 42; pid = 7; worker_id = 1 }

abbrev fields : List (Bytes × LogValue)
fields =
    (codes "client_sni", log_value_str (some (codes "a\"\nE")))
    ∷ (codes "err", log_value_int (negsuc 21))
    ∷ []

line :
    log_at ctx b'I' (codes "src/worker.c") 9 (some (codes "gone")) fields
    ≡ codes
        "I1125 21:20:00.000042       7 src/worker.c:9] worker=1 msg=\"gone\" client_sni=\"a\\\"\\nE\" err=-22\n"
unfolding log_at decimal
line = refl

abbrev lacks : ℕ → Bytes → Bool
lacks k [] = true
lacks k (c ∷ cs) = not (c == k) && lacks k cs

lacks-Without : (k : ℕ) (s : Bytes) → lacks k s ≡ true → Without k s
lacks-Without k [] h = tt
lacks-Without k (c ∷ cs) h = elim (Bool-cases (c == k)) [
  | inl here ↦ absurd (not_there (sym (ap (λ b. not b && lacks k cs) here) ∙ h))
  | inr other ↦ (other, lacks-Without k cs (sym (ap (λ b. not b && lacks k cs) other) ∙ h))
]
  where
    not_there : false ≢ true
    not_there e = cc

fields-IsField : All IsField fields
fields-IsField = (
  (lacks-Without b'=' (codes "client_sni") refl, lacks-Without b'\n' (codes "client_sni") refl, tt),
  ((lacks-Without b'=' (codes "err") refl, lacks-Without b'\n' (codes "err") refl, tt), tt),
)

log_at-read_example :
    read_log (log_at ctx b'I' (codes "w.c") 9 (some (codes "gone")) fields)
    ≡ some (codes "gone", field_texts fields)
log_at-read_example =
    log_at-read ctx b'I' 9 (codes "w.c") (some (codes "gone")) fields
      (refl, lacks-Without b'"' ctx.tbuf refl, lacks-Without b'"' (codes "w.c") refl) fields-IsField

log_at-one_line_example :
    (body : Bytes) × (log_at ctx b'I' (codes "w.c") 9 (some (codes "gone")) fields
      ≡ body ++ b'\n' ∷ [])
    × Without b'\n' body
log_at-one_line_example =
    log_at-one_line ctx b'I' 9 (codes "w.c") (some (codes "gone")) fields
      (refl, lacks-Without b'\n' ctx.tbuf refl, lacks-Without b'\n' (codes "w.c") refl)
      fields-IsField

some-inj : {a b : Bytes} → some a ≡ some b → a ≡ b
some-inj h = cc

abbrev loopback : Endpoint
loopback = record (blank tcp) { host = codes "127.0.0.1"; port = 8080 }

abbrev pton : ℕ → Bytes → Option Bytes
pton family text = if family == 2 then some (127 ∷ 0 ∷ 0 ∷ 1 ∷ []) else none

abbrev ntop : ℕ → Bytes → Option Bytes
ntop family addr = some (codes "127.0.0.1")

abbrev loopback_addr : Bytes
loopback_addr = 2 ∷ 0 ∷ 31 ∷ 144 ∷ 127 ∷ 0 ∷ 0 ∷ 1 ∷ 0 ∷ 0 ∷ 0 ∷ 0 ∷ 0 ∷ 0 ∷ 0 ∷ 0 ∷ []

resolves : endpoint_to_sockaddr pton loopback ≡ ok loopback_addr
unfolding endpoint_to_sockaddr put_u16
resolves = refl

sockaddr_format-endpoint_to_sockaddr_example :
    endpoint_to_string (some loopback) 128 ≡ ok (sockaddr_format ntop (some loopback_addr) 128)
sockaddr_format-endpoint_to_sockaddr_example =
    sockaddr_format-endpoint_to_sockaddr pton ntop loopback
      (record { size4 = λ e. ap length (some-inj (sym e)); size16 = λ e. cc; back = λ e. refl })
      (omega arith) loopback_addr 128 (omega arith) resolves
