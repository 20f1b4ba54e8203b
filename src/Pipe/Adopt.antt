-- ===== src/Pipe/Adopt.antt =====
-- worker_adopt_client_fd of src/stream_conn.c.
pub mod Header
pub mod Tests
use tinyproxy.Base.{
  ℕ, Bool, true, false, not, ◌&&◌, ◌==◌, [], Option, none, some, leb, if◌then◌else◌, Bytes, length,
  Errno, einval, enametoolong, enotsup, Result, ok, err,
}
use tinyproxy.Text.{is_nil}
use tinyproxy.Endpoint.{
  EndpointKind, inet, inet6, unix_kind, unix_dgram_kind, file_kind, builtin_kind, Endpoint,
  path_size,
}
use tinyproxy.Route.{RouteOptions, Route}
use tinyproxy.Proxy.{sock_stream, proxy_v2_build}
use tinyproxy.Datagram.{ss_family, af_inet}
use tinyproxy.Datagram.Packet.{as_sockaddr}

-- What the calls outside of the sources give: whether calloc and the two calls of
-- bufferevent_socket_new succeed, the error of endpoint_to_sockaddr and of
-- bufferevent_socket_connect, the local address, and whether bufferevent_write succeeds.
pub record AdoptCalls : Type 0 where
  pub calloc : Bool
  pub client_bev : Bool
  pub upstream_bev : Bool
  pub resolve : Option Errno
  pub connect : Option Errno
  pub getsockname : Option Bytes
  pub write : Bool

-- What becomes of the client's socket: it was closed, and nothing is left; the builtin or the file
-- code has the connection; or it is a pipe, which does not read from its client yet, with these bytes
-- in the output of the upstream.
pub data Adopted : Type 0 where
  client_closed with_builtin with_file : Adopted
  piped : Bytes → Adopted

abbrev pub connect_resolved : Option Errno → Option Errno → Option Errno
connect_resolved (some e) rc = some e
connect_resolved none rc = rc

-- The return code of connect_upstream, `none` for 0.
connect_by_kind : AdoptCalls → EndpointKind → Bytes → Option Errno
connect_by_kind calls inet path = connect_resolved calls.resolve calls.connect
connect_by_kind calls inet6 path = connect_resolved calls.resolve calls.connect
connect_by_kind calls unix_kind path =
    if is_nil path
    then some einval
    else if leb path_size (length path)
    then some enametoolong
    else calls.connect
connect_by_kind calls _ path = some enotsup

unfoldable pub connect_upstream : AdoptCalls → Endpoint → Option Errno
unfolding connect_by_kind
connect_upstream calls ep = connect_by_kind calls ep.kind ep.path

abbrev pub write_hdr : AdoptCalls → Result Bytes → Adopted
write_hdr calls (err e) = client_closed
write_hdr calls (ok hdr) = if calls.write then piped hdr else client_closed

-- The header of a route with `proxy_v2`.
abbrev pub queue_header : AdoptCalls → Bytes → Option Bytes → Adopted
queue_header calls peer_addr none = client_closed
queue_header calls peer_addr (some local_addr) =
    if length peer_addr == 0
    then client_closed
    else if not (ss_family peer_addr == af_inet && ss_family local_addr == af_inet)
    then client_closed
    else write_hdr calls (
        proxy_v2_build 256 (as_sockaddr peer_addr) (length peer_addr) (as_sockaddr local_addr)
          (length local_addr) sock_stream)

abbrev pub connecting : AdoptCalls → RouteOptions → Bytes → Option Errno → Adopted
connecting calls opts peer_addr (some e) = client_closed
connecting calls opts peer_addr none =
    if opts.proxy_v2 then queue_header calls peer_addr calls.getsockname else piped []

abbrev pub adopt_kind : AdoptCalls → Route → Bytes → EndpointKind → Adopted
adopt_kind calls r peer_addr builtin_kind = with_builtin
adopt_kind calls r peer_addr file_kind = with_file
adopt_kind calls r peer_addr _ =
    if not calls.upstream_bev
    then client_closed
    else connecting calls r.opts peer_addr (connect_upstream calls r.upstream_ep)

unfoldable pub worker_adopt_client_fd : AdoptCalls → Route → Bytes → Adopted
unfolding connect_upstream proxy_v2_build
worker_adopt_client_fd calls r peer_addr =
    if not calls.calloc
    then client_closed
    else if not calls.client_bev
    then client_closed
    else adopt_kind calls r peer_addr r.upstream_ep.kind
