-- ===== src/Endpoint.antt =====
-- src/endpoint.c and src/endpoint.h.
pub mod Sockaddr
use tinyproxy.Base.{
  ℕ, Bool, true, false, ◌||◌, [], ◌∷◌, ◌++◌, Option, none, some, ◌==◌, if◌then◌else◌, Bytes, codes,
  Result, ok, err, einval,
}
use tinyproxy.Text.{snprintf_text}
use tinyproxy.Text.Decimal.{decimal}
use tinyproxy.Builtin.{XBuiltin, none_builtin, x_builtin_name}

pub data EndpointProto : Type 0 where
  tcp udp unix_stream unix_dgram file builtin : EndpointProto

pub data EndpointKind : Type 0 where
  inet inet6 unix_kind unix_dgram_kind builtin_kind file_kind : EndpointKind

-- `host` and `path` are the C strings in the arrays.
pub record Endpoint : Type 0 where
  pub kind : EndpointKind
  pub host : Bytes
  pub port : ℕ
  pub proto : EndpointProto
  pub path : Bytes
  pub builtin_id : XBuiltin

-- sizeof(ep->host), sizeof(ep->path)
abbrev pub host_size : ℕ
host_size = 256

abbrev pub path_size : ℕ
path_size = 108

-- memset(ep, 0, sizeof(*ep)); ep->proto = proto;
abbrev pub blank : EndpointProto → Endpoint
blank proto = record {
  kind = inet;
  host = [];
  port = 0;
  proto = proto;
  path = [];
  builtin_id = none_builtin;
}

-- The text that the switch prints.
unfoldable pub endpoint_text : EndpointKind → Endpoint → Bytes
endpoint_text inet ep = ep.host ++ b':' ∷ decimal ep.port
endpoint_text inet6 ep = b'[' ∷ (ep.host ++ b']' ∷ b':' ∷ decimal ep.port)
endpoint_text unix_kind ep = codes "unix:" ++ ep.path
endpoint_text unix_dgram_kind ep = codes "unix-dgram:" ++ ep.path
endpoint_text builtin_kind ep = codes "builtin://" ++ x_builtin_name ep.builtin_id
endpoint_text file_kind ep = codes "file://" ++ ep.path

-- `ep` is `none` for NULL; the result is the C string left in the buffer.
unfoldable pub endpoint_to_string : Option Endpoint → ℕ → Result Bytes
unfolding endpoint_text
endpoint_to_string none buf_len =
    if buf_len == 0 then err einval else ok (snprintf_text buf_len (codes "<nil>"))
endpoint_to_string (some ep) buf_len =
    if buf_len == 0 then err einval else ok (snprintf_text buf_len (endpoint_text ep.kind ep))

abbrev pub is_stream_proto : EndpointProto → Bool
is_stream_proto tcp = true
is_stream_proto unix_stream = true
is_stream_proto _ = false

abbrev pub is_datagram_proto : EndpointProto → Bool
is_datagram_proto udp = true
is_datagram_proto unix_dgram = true
is_datagram_proto _ = false

unfoldable pub endpoint_is_stream : Option Endpoint → Bool
endpoint_is_stream none = false
endpoint_is_stream (some ep) = is_stream_proto ep.proto

unfoldable pub endpoint_is_datagram : Option Endpoint → Bool
endpoint_is_datagram none = false
endpoint_is_datagram (some ep) = is_datagram_proto ep.proto

unfoldable pub endpoint_is_listenable : Option Endpoint → Bool
unfolding endpoint_is_stream endpoint_is_datagram
endpoint_is_listenable ep = endpoint_is_stream ep || endpoint_is_datagram ep
