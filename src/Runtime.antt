-- ===== src/Runtime.antt =====
-- src/route_runtime.c: a route of either kind, from its start to its end. Its validate_route is in
-- Route.
pub mod Ends
use tinyproxy.Base.{Option, none, some, if◌then◌else◌, Errno, einval}
use tinyproxy.Endpoint.{endpoint_is_stream, endpoint_is_datagram}
use tinyproxy.Route.{Route}
use tinyproxy.Datagram.{Effects, Table}
use tinyproxy.Datagram.Packet.{DatagramRouteCtx}
use tinyproxy.Datagram.Listener.{ListenCalls, Outcome}
use tinyproxy.Datagram.Lifecycle.{
  Stat, start_datagram_route, stop_datagram_route_listener, free_datagram_route,
}
use tinyproxy.Stream.{
  StreamRouteCtx, StreamCalls, StreamOutcome, start_stream_route, stop_stream_route_listener,
  free_stream_route,
}

-- `struct route_ctx`: `kind` with the member of the union; for ROUTE_CTX_NONE the effects are left.
pub data RouteCtx : Type 0 where
  stream_ctx : StreamRouteCtx → RouteCtx
  datagram_ctx : DatagramRouteCtx → RouteCtx
  none_ctx : Effects → RouteCtx

abbrev pub from_stream : StreamOutcome → Option Errno × RouteCtx
from_stream (none, c) = (none, stream_ctx c)
from_stream (some e, c) = (some e, none_ctx c.effects)

abbrev pub from_datagram : Outcome → Option Errno × RouteCtx
from_datagram (none, c) = (none, datagram_ctx c)
from_datagram (some e, c) = (some e, none_ctx c.table.effects)

unfoldable pub start_route :
    Stat → StreamCalls → ListenCalls → Route → Effects → Option Errno × RouteCtx
unfolding start_stream_route start_datagram_route
start_route stat stream_calls datagram_calls r fx =
    if endpoint_is_stream (some r.listen_ep)
    then from_stream (start_stream_route stream_calls r fx)
    else if endpoint_is_datagram (some r.listen_ep)
    then from_datagram (start_datagram_route stat datagram_calls r fx)
    else (some einval, none_ctx fx)

unfoldable pub stop_route_listeners : RouteCtx → RouteCtx
unfolding stop_stream_route_listener stop_datagram_route_listener
stop_route_listeners (stream_ctx c) = stream_ctx (stop_stream_route_listener c)
stop_route_listeners (datagram_ctx c) = datagram_ctx (stop_datagram_route_listener c)
stop_route_listeners (none_ctx fx) = none_ctx fx

-- The effects that are left.
unfoldable pub free_route : Stat → RouteCtx → Effects
unfolding free_stream_route free_datagram_route
free_route stat (stream_ctx c) = free_stream_route stat c
free_route stat (datagram_ctx c) = free_datagram_route stat c
free_route stat (none_ctx fx) = fx
