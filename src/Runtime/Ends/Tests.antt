-- ===== src/Runtime/Ends/Tests.antt =====
-- A stream route from its start to its end.
use tinyproxy.Base.{◌≡◌, refl, true, false, [], ◌∷◌, none, some, codes, ok}
use tinyproxy.Endpoint.{tcp, blank, endpoint_is_stream}
use tinyproxy.Route.{off, Route}
use tinyproxy.Bind.{bound}
use tinyproxy.Datagram.{Effects}
use tinyproxy.Datagram.Listener.{ListenCalls}
use tinyproxy.Datagram.Lifecycle.{no_stat}
use tinyproxy.Stream.{StreamCalls}
use tinyproxy.Runtime.{RouteCtx, stream_ctx, start_route, stop_route_listeners}
use tinyproxy.Runtime.Ends.{Runs}

abbrev web : Route
web = record {
  listen_ep = record (blank tcp) { host = codes "127.0.0.1"; port = 443 };
  upstream_ep = record (blank tcp) { host = codes "192.168.0.9"; port = 8443 };
  opts = record {
    proxy_v2 = false;
    keep_alive = false;
    sni_sniff = true;
    idle_timeout_sec = 60;
    connect_timeout_sec = 5;
    bind_wait_sec = 2;
    broadcast_reply = off;
  };
  line_no = 7;
}

abbrev stream_calls : StreamCalls
stream_calls = record {
  resolve = none;
  unlink = none;
  socket = ok 6;
  reuseable = none;
  nonblocking = none;
  bind = λ i. bound;
  bind_unix = none;
  listen = none;
  evconnlistener_new = none;
}

abbrev datagram_calls : ListenCalls
datagram_calls = record {
  raw_socket = ok 6;
  hdrincl = none;
  mutex_init = none;
  mkdir = none;
  resolve = none;
  unlink = none;
  socket = ok 7;
  broadcast = none;
  v6only = none;
  nonblocking = none;
  reuseaddr = none;
  bind = λ i. bound;
  bind_unix = none;
  getsockname = ok [];
  event_new = true;
  event_add = true;
}

abbrev nothing : Effects
nothing = record { opened = []; closed = []; unlinked = []; freed = [] }

abbrev serving : RouteCtx
serving =
    stream_ctx
      (record { route = web; listener = some 6; effects = record nothing { opened = 6 ∷ [] } })

web_serves : start_route no_stat stream_calls datagram_calls web nothing ≡ (none, serving)
unfolding start_route endpoint_is_stream
web_serves = refl

stopped : Runs web (stop_route_listeners serving) (stop_route_listeners serving)
unfolding stop_route_listeners
stopped = refl
