-- ===== src/Pipe/Adopt/Tests.antt =====
-- A client that is taken over for a route with PROXY headers.
use tinyproxy.Base.{◌≤◌, ◌≡◌, sym, refl, true, [], ◌∷◌, none, some, arith, Bytes, codes, length}
use tinyproxy.Endpoint.{tcp, blank}
use tinyproxy.Route.{off, Route}
use tinyproxy.Proxy.{header_of}
use tinyproxy.Datagram.{ss_family, af_inet}
use tinyproxy.Pipe.Adopt.{AdoptCalls, piped, worker_adopt_client_fd}
use tinyproxy.Pipe.Adopt.Header.{Takes, worker_adopt_client_fd-Takes}

-- 127.0.0.1:443 and 10.0.0.7:4660.
abbrev local : Bytes
local = 2 ∷ 0 ∷ 1 ∷ 187 ∷ 127 ∷ 0 ∷ 0 ∷ 1 ∷ 0 ∷ 0 ∷ 0 ∷ 0 ∷ 0 ∷ 0 ∷ 0 ∷ 0 ∷ []

abbrev peer : Bytes
peer = 2 ∷ 0 ∷ 18 ∷ 52 ∷ 10 ∷ 0 ∷ 0 ∷ 7 ∷ 0 ∷ 0 ∷ 0 ∷ 0 ∷ 0 ∷ 0 ∷ 0 ∷ 0 ∷ []

abbrev all_work : AdoptCalls
all_work = record {
  calloc = true;
  client_bev = true;
  upstream_bev = true;
  resolve = none;
  connect = none;
  getsockname = some local;
  write = true;
}

abbrev web : Route
web = record {
  listen_ep = record (blank tcp) { host = codes "127.0.0.1"; port = 443 };
  upstream_ep = record (blank tcp) { host = codes "192.168.0.9"; port = 8443 };
  opts = record {
    proxy_v2 = true;
    keep_alive = true;
    sni_sniff = true;
    idle_timeout_sec = 60;
    connect_timeout_sec = 5;
    bind_wait_sec = 0;
    broadcast_reply = off;
  };
  line_no = 1;
}

announced :
    worker_adopt_client_fd all_work web peer
    ≡ piped (header_of 12 0x10 1 (10 ∷ 0 ∷ 0 ∷ 7 ∷ 127 ∷ 0 ∷ 0 ∷ 1 ∷ 18 ∷ 52 ∷ 1 ∷ 187 ∷ []))
unfolding worker_adopt_client_fd
announced = refl

local_size :
    (addr : Bytes) → all_work.getsockname ≡ some addr → ss_family addr ≡ af_inet → 16 ≤ length addr
local_size addr h e = let same : local ≡ addr = cc in rw (sym same) (omega arith)

worker_adopt_client_fd-Takes_example :
    Takes all_work web peer (worker_adopt_client_fd all_work web peer)
worker_adopt_client_fd-Takes_example =
    worker_adopt_client_fd-Takes all_work web peer local_size (λ e. omega arith)
