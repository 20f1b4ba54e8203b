-- ===== src/Conf/Address.antt =====
-- The endpoint parsers of src/file_conf.c: split_host_port, parse_proto and parse_endpoint. The
-- return value -1 is `none`; what is written through pointers is the result.

pub mod RoundTrip
pub mod Valid
use tinyproxy.Base.{
  ℕ, ◌+◌, ◌≤◌, Bool, true, false, ◌&&◌, ◌||◌, List, [], ◌∷◌, Option, none, some, leb, ◌==◌,
  if◌then◌else◌, Bytes, codes, length, str_eq, Result, ok, err,
}
use tinyproxy.Text.{is_nil, strchr, snprintf_text}
use tinyproxy.Text.Numbers.{parse_port}
use tinyproxy.Builtin.{XBuiltin, x_builtin_parse}
use tinyproxy.Endpoint.{
  EndpointProto, tcp, udp, unix_stream, unix_dgram, file, builtin, EndpointKind, inet, inet6,
  unix_kind, unix_dgram_kind, builtin_kind, file_kind, Endpoint, host_size, path_size, blank,
}

pub record HostPort : Type 0 where
  pub host : Bytes
  pub port : ℕ
  pub is_ipv6 : Bool

-- The end of split_host_port: parse_port on `port_s`.
abbrev pub with_port : Bytes → Bool → Option ℕ → Option HostPort
with_port host v6 none = none
with_port host v6 (some p) = some (record { host = host; port = p; is_ipv6 = v6 })

-- Behind `]`: a colon and the port.
abbrev bracket_rest : ℕ → Bytes → Bytes → Option HostPort
bracket_rest host_len host [] = none
bracket_rest host_len host (c ∷ port_s) =
    if c == b':'
    then (if length host == 0 || leb host_len (length host) || is_nil port_s
        then none
        else with_port host true (parse_port port_s))
    else none

-- `input` is what follows the `[`.
split_bracketed : ℕ → Option (Bytes × Bytes) → Option HostPort
split_bracketed host_len none = none
split_bracketed host_len (some (host, behind)) = bracket_rest host_len host behind

abbrev is_some {ℓ} : {A : Type ℓ} → Option A → Bool
is_some none = false
is_some (some a) = true

-- At the first colon; a second colon makes `first_colon != last_colon`. An empty host is the
-- wildcard "0.0.0.0", cut to the buffer as by snprintf.
split_plain : ℕ → Option (Bytes × Bytes) → Option HostPort
split_plain host_len none = none
split_plain host_len (some (host, port_s)) =
    if is_some (strchr b':' port_s)
    then none
    else if leb host_len (length host) || is_nil port_s
    then none
    else with_port (if is_nil host then snprintf_text host_len (codes "0.0.0.0") else host) false
        (parse_port port_s)

split_nonempty : Bytes → ℕ → Option HostPort
split_nonempty [] host_len = split_plain host_len none
split_nonempty (c ∷ cs) host_len =
    if c == b'['
    then split_bracketed host_len (strchr b']' cs)
    else split_plain host_len (strchr b':' (c ∷ cs))

unfoldable pub split_host_port : Bytes → ℕ → Option HostPort
unfolding split_nonempty split_bracketed split_plain
split_host_port input host_len = if host_len == 0 then none else split_nonempty input host_len

unfoldable pub parse_proto : Bytes → Option EndpointProto
parse_proto s =
    if str_eq s (codes "tcp")
    then some tcp
    else if str_eq s (codes "udp")
    then some udp
    else if str_eq s (codes "unix")
    then some unix_stream
    else if str_eq s (codes "unix-dgram")
    then some unix_dgram
    else if str_eq s (codes "file")
    then some file
    else if str_eq s (codes "builtin")
    then some builtin
    else none

-- The cases PROTO_TCP and PROTO_UDP.
inet_endpoint : EndpointProto → Option HostPort → Option Endpoint
inet_endpoint proto none = none
inet_endpoint proto (some hp) = some (record (blank proto) {
  kind = if hp.is_ipv6 then inet6 else inet;
  host = hp.host;
  port = hp.port;
})

-- The cases PROTO_UNIX_STREAM, PROTO_UNIX_DGRAM and PROTO_FILE.
path_endpoint : EndpointProto → EndpointKind → Bytes → Option Endpoint
path_endpoint proto kind s =
    if is_nil s || leb path_size (length s)
    then none
    else some (record (blank proto) { kind = kind; path = s })

builtin_endpoint : Bytes → Result XBuiltin → Option Endpoint
builtin_endpoint s (err e) = none
builtin_endpoint s (ok b) =
    if is_nil s then none else some (record (blank builtin) { kind = builtin_kind; builtin_id = b })

unfoldable pub parse_endpoint : EndpointProto → Bytes → Option Endpoint
unfolding inet_endpoint path_endpoint builtin_endpoint
parse_endpoint tcp s = inet_endpoint tcp (split_host_port s host_size)
parse_endpoint udp s = inet_endpoint udp (split_host_port s host_size)
parse_endpoint unix_stream s = path_endpoint unix_stream unix_kind s
parse_endpoint unix_dgram s = path_endpoint unix_dgram unix_dgram_kind s
parse_endpoint file s = path_endpoint file file_kind s
parse_endpoint builtin s = builtin_endpoint s (x_builtin_parse s)
