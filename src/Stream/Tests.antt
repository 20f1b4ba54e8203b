-- ===== src/Stream/Tests.antt =====
-- A stream route that starts and ends, and one whose socket cannot listen.
use tinyproxy.Base.{◌≡◌, refl, Option, true, [], ◌∷◌, none, some, codes, Errno, eaddrinuse, ok}
use tinyproxy.Endpoint.{tcp, blank}
use tinyproxy.Route.{off, Route}
use tinyproxy.Bind.{bound}
use tinyproxy.Datagram.{Effects}
use tinyproxy.Stream.{StreamCalls, start_stream_route}

abbrev web : Route
web = record {
  listen_ep = record (blank tcp) { host = codes "127.0.0.1"; port = 443 };
  upstream_ep = record (blank tcp) { host = codes "192.168.0.9"; port = 8443 };
  opts = record {
    proxy_v2 = true;
    keep_alive = true;
    sni_sniff = true;
    idle_timeout_sec = 60;
    connect_timeout_sec = 5;
    bind_wait_sec = 0;
    broadcast_reply = off;
  };
  line_no = 1;
}

abbrev calls_with : Option Errno → StreamCalls
calls_with rc = record {
  resolve = none;
  unlink = none;
  socket = ok 5;
  reuseable = none;
  nonblocking = none;
  bind = λ i. bound;
  bind_unix = none;
  listen = rc;
  evconnlistener_new = none;
}

abbrev nothing : Effects
nothing = record { opened = []; closed = []; unlinked = []; freed = [] }

listens : start_stream_route (calls_with none) web nothing ≡ (
  none,
  record { route = web; listener = some 5; effects = record nothing { opened = 5 ∷ [] } },
)
unfolding start_stream_route
listens = refl

cannot_listen : start_stream_route (calls_with (some eaddrinuse)) web nothing ≡ (
  some eaddrinuse,
  record {
    route = web;
    listener = none;
    effects = record nothing { opened = 5 ∷ []; closed = 5 ∷ [] };
  },
)
unfolding start_stream_route
cannot_listen = refl
