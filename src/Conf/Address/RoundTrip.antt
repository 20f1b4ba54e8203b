-- ===== src/Conf/Address/RoundTrip.antt =====
-- Reading back the addresses that src/endpoint.c prints.
use tinyproxy.Base.{
  ℕ, ◌≤◌, ◌<◌, ◌≡◌, refl, ◌∙◌, Bool, true, false, ◌||◌, [], ◌∷◌, ◌++◌, none, some, arith, leb, ◌==◌,
  inl, inr, if◌then◌else◌, Bytes, length, take-all, ◌-◌, ◌⊎◌, All, ok,
}
use tinyproxy.Text.{is_nil, strchr}
use tinyproxy.Text.Decimal.{decimal, decimal-BeginsWithDigit, decimal_no}
use tinyproxy.Text.Numbers.{parse_port-decimal}
use tinyproxy.Endpoint.{
  EndpointProto, tcp, udp, inet, inet6, Endpoint, host_size, blank, endpoint_text,
  endpoint_to_string,
}
use tinyproxy.Conf.Address.{split_plain, split_nonempty, split_host_port, parse_endpoint}

-- The host holds no byte `k`.
abbrev pub Without : ℕ → Bytes → Type 0
Without k = All (λ c. (c == k) ≡ false)

pub strchr-append : (k : ℕ) (a b : Bytes) → Without k a → strchr k (a ++ k ∷ b) ≡ some (a, b)
unfolding strchr
strchr-append k [] b h = let same : (k == k) ≡ true = ground arith in rw same
strchr-append k (c ∷ a) b h = rw (h.0, strchr-append k a b h.1)

strchr-none : (k : ℕ) (a : Bytes) → Without k a → strchr k a ≡ none
unfolding strchr
strchr-none k [] h = refl
strchr-none k (c ∷ a) h = rw (h.0, strchr-none k a h.1)

module _ (host : Bytes) (port : ℕ) (fits : length host < host_size) (pos : 0 < port)
    (small : port ≤ 65535) where
  decimal_some : is_nil (decimal port) ≡ false
  decimal_some = let (d, ds, e, _) = decimal-BeginsWithDigit port in rw e

  bracketed :
      0 < length host
      → Without b']' host
      → split_host_port (b'[' ∷ (host ++ b']' ∷ b':' ∷ decimal port)) host_size
        ≡ some (record { host = host; port = port; is_ipv6 = true })
  unfolding split_host_port
  bracketed nonempty no_close =
      let accepted : (length host == 0 || leb host_size (length host) || is_nil (decimal port))
          ≡ false =
        rw decimal_some (ground arith) in
      rw (strchr-append b']' host _ no_close, accepted, parse_port-decimal port pos small)

  plain :
      (c : ℕ) (cs : Bytes)
      → host ≡ c ∷ cs
      → (c == b'[') ≡ false
      → Without b':' host
      → split_host_port (host ++ b':' ∷ decimal port) host_size
        ≡ some (record { host = host; port = port; is_ipv6 = false })
  unfolding split_host_port
  plain c cs e no_bracket no_colon =
      let first : split_nonempty (host ++ b':' ∷ decimal port) host_size
          ≡ split_plain host_size (strchr b':' (host ++ b':' ∷ decimal port)) =
        rw (e, no_bracket) refl in
      let short : leb host_size (length host) ≡ false = ground arith in
      let some_host : is_nil host ≡ false = rw e refl in
      let single : strchr b':' (decimal port) ≡ none =
        strchr-none b':' (decimal port) (decimal_no b':' port refl) in
      first
      ∙ rw (
        strchr-append b':' host (decimal port) no_colon,
        single,
        short,
        decimal_some,
        some_host,
        parse_port-decimal port pos small,
      )

-- The endpoint of a TCP or UDP address.
abbrev pub inet_of : EndpointProto → Bool → Bytes → ℕ → Endpoint
inet_of proto v6 host port = record (blank proto) {
  kind = if v6 then inet6 else inet;
  host = host;
  port = port;
}

-- A host that its text leaves recognisable: no `]` in brackets; without them no colon and no
-- leading `[`.
abbrev pub IsHost : Bool → Bytes → Type 0
IsHost v6 [] = ⊥
IsHost true (c ∷ cs) = Without b']' (c ∷ cs)
IsHost false (c ∷ cs) = ((c == b'[') ≡ false) × Without b':' (c ∷ cs)

split-text :
    (v6 : Bool) (proto : EndpointProto) (host : Bytes) (port : ℕ)
    → IsHost v6 host
    → length host < host_size
    → 0 < port
    → port ≤ 65535
    → split_host_port
        (endpoint_text (if v6 then inet6 else inet) (inet_of proto v6 host port))
        host_size
      ≡ some (record { host = host; port = port; is_ipv6 = v6 })
unfolding endpoint_text
split-text v6 proto [] port h fits pos small = absurd h
split-text true proto (c ∷ cs) port h fits pos small =
    bracketed (c ∷ cs) port fits pos small (omega arith) h
split-text false proto (c ∷ cs) port h fits pos small =
    plain (c ∷ cs) port fits pos small c cs refl h.0 h.1

parse-inet :
    (proto : EndpointProto) (s : Bytes) (v6 : Bool) (host : Bytes) (port : ℕ)
    → (proto ≡ tcp) ⊎ (proto ≡ udp)
    → split_host_port s host_size ≡ some (record { host = host; port = port; is_ipv6 = v6 })
    → parse_endpoint proto s ≡ some (inet_of proto v6 host port)
unfolding parse_endpoint
parse-inet proto s v6 host port (inl e) h = rw (e, h)
parse-inet proto s v6 host port (inr e) h = rw (e, h)

-- The text that endpoint_to_string prints of a TCP or UDP address, in a buffer that holds it, is
-- parsed back to the same endpoint.
pub parse_endpoint-endpoint_to_string :
    (proto : EndpointProto) (v6 : Bool) (host : Bytes) (port buf_len : ℕ)
    → (proto ≡ tcp) ⊎ (proto ≡ udp)
    → IsHost v6 host
    → length host < host_size
    → 0 < port
    → port ≤ 65535
    → length (endpoint_text (if v6 then inet6 else inet) (inet_of proto v6 host port)) < buf_len
    → (text : Bytes) × (endpoint_to_string (some (inet_of proto v6 host port)) buf_len ≡ ok text)
      × (parse_endpoint proto text ≡ some (inet_of proto v6 host port))
unfolding endpoint_to_string
parse_endpoint-endpoint_to_string proto v6 host port buf_len is_inet h fits pos small room =
    let text = endpoint_text (if v6 then inet6 else inet) (inet_of proto v6 host port) in
    let some_room : (buf_len == 0) ≡ false = ground arith in
    (
      text,
      rw (some_room, take-all (buf_len - 1) text (omega arith)),
      parse-inet proto text v6 host port is_inet (split-text v6 proto host port h fits pos small),
    )
