-- ===== src/Datagram/Tests.antt =====
-- Runs of the datagram code, and its theorems at concrete inputs.
use tinyproxy.Base.{
  ℕ, ◌+◌, ◌<◌, ◌≡◌, ap, sym, refl, Bool, true, false, [], ◌∷◌, ◌++◌, Option, none, some, arith,
  Bytes, codes, length, ok,
}
use tinyproxy.Endpoint.{udp, Endpoint, blank}
use tinyproxy.Route.{upstream, RouteOptions, Route}
use tinyproxy.Bind.{bound}
use tinyproxy.Proxy.{put_u16}
use tinyproxy.Datagram.{DatagramClient, Effects, Table}
use tinyproxy.Datagram.Client.{Calls, cleanup_idle_datagram_clients, get_or_create_client}
use tinyproxy.Datagram.Client.Addresses.{Filtered, cleanup_idle_datagram_clients-Filtered}
use tinyproxy.Datagram.Client.Sockets.{packet, clean_up, Reached, at_start, after, IsSound}
use tinyproxy.Datagram.Raw.{sum_words, fold_carries, checksum16, datagram_raw_send_udp_ipv4}
use tinyproxy.Datagram.Raw.Checksum.{checksum16-verifies}
use tinyproxy.Datagram.Raw.Read.{Sends, datagram_raw_send_udp_ipv4-Sends}
use tinyproxy.Datagram.Packet.{DatagramRouteCtx, datagram_route_handle_packet}
use tinyproxy.Datagram.Packet.Forward.{Handled, datagram_route_handle_packet-Handled}
use tinyproxy.Datagram.Listener.{ListenCalls}
use tinyproxy.Datagram.Lifecycle.{sock_file, start_datagram_route}
use tinyproxy.Datagram.Lifecycle.Sockets.{own_sockets, start_datagram_route-IsSound}

-- 127.0.0.1:53 and 10.0.0.7:4660, as the kernel gives them.
abbrev local : Bytes
local = 2 ∷ 0 ∷ 0 ∷ 53 ∷ 127 ∷ 0 ∷ 0 ∷ 1 ∷ 0 ∷ 0 ∷ 0 ∷ 0 ∷ 0 ∷ 0 ∷ 0 ∷ 0 ∷ []

abbrev peer : Bytes
peer = 2 ∷ 0 ∷ 18 ∷ 52 ∷ 10 ∷ 0 ∷ 0 ∷ 7 ∷ 0 ∷ 0 ∷ 0 ∷ 0 ∷ 0 ∷ 0 ∷ 0 ∷ 0 ∷ []

abbrev udp_endpoint : ℕ → Endpoint
udp_endpoint port = record (blank udp) { host = codes "192.168.0.9"; port = port }

abbrev options : RouteOptions
options = record {
  proxy_v2 = true;
  keep_alive = false;
  sni_sniff = false;
  idle_timeout_sec = 60;
  connect_timeout_sec = 5;
  bind_wait_sec = 0;
  broadcast_reply = upstream;
}

abbrev dns : Route
dns = record {
  listen_ep = udp_endpoint 53;
  upstream_ep = udp_endpoint 5353;
  opts = options;
  line_no = 1;
}

abbrev nothing : Effects
nothing = record { opened = []; closed = []; unlinked = []; freed = [] }

abbrev client : ℕ → Bytes → ℕ → DatagramClient
client fd addr seen = record {
  id = 100 + fd;
  fd = some fd;
  ev = true;
  unix_local_path = [];
  client_addr = addr;
  last_seen = seen;
}

abbrev pair : Table
pair = record {
  clients = client 8 peer 100 ∷ client 9 local 30 ∷ [];
  effects = record nothing { opened = 9 ∷ 8 ∷ [] };
}

-- The client seen 60 seconds ago stays, the one seen 130 seconds ago goes.
pair_cleaned : cleanup_idle_datagram_clients 160 60 pair ≡ record {
  clients = client 8 peer 100 ∷ [];
  effects = record { opened = 9 ∷ 8 ∷ []; closed = 9 ∷ []; unlinked = []; freed = 109 ∷ [] };
}
unfolding cleanup_idle_datagram_clients
pair_cleaned = refl

cleanup_idle_datagram_clients-Filtered_example :
    Filtered 160 60 pair.clients pair.effects (cleanup_idle_datagram_clients 160 60 pair)
cleanup_idle_datagram_clients-Filtered_example = cleanup_idle_datagram_clients-Filtered 160 60 pair

abbrev all_work : Calls
all_work = record {
  calloc = some 500;
  resolve = none;
  socket = ok 11;
  local_path = [];
  bind = none;
  connect = none;
  nonblocking = true;
  event_new = true;
  event_add = true;
}

abbrev listening : DatagramRouteCtx
listening = record {
  route = dns;
  listen_fd = some 4;
  listen_ev = true;
  local_addr = local;
  raw_fd = some 3;
  table = record { clients = []; effects = record nothing { opened = 3 ∷ 4 ∷ [] } };
}

abbrev no_text : ℕ → Bytes → Option Bytes
no_text family addr = none

datagram_route_handle_packet-Handled_example :
    Handled none 7 listening peer
      (1 ∷ 2 ∷ 3 ∷ [])
      (datagram_route_handle_packet no_text all_work none 7 listening peer (1 ∷ 2 ∷ 3 ∷ []))
datagram_route_handle_packet-Handled_example =
    datagram_route_handle_packet-Handled no_text all_work none 7 listening peer (1 ∷ 2 ∷ 3 ∷ [])
      refl (λ e. omega arith) (λ e. omega arith)

-- The header of RFC 1071's kind: the words before and behind the checksum.
abbrev header_front : Bytes
header_front = 0x45 ∷ 0 ∷ 0 ∷ 31 ∷ 0 ∷ 0 ∷ 0 ∷ 0 ∷ 64 ∷ 17 ∷ []

abbrev header_end : Bytes
header_end = 192 ∷ 168 ∷ 0 ∷ 9 ∷ 10 ∷ 0 ∷ 0 ∷ 7 ∷ []

checksum16-verifies_example :
    (checksum16 (header_front ++ (put_u16 0 ++ header_end)) < 65536)
    × (checksum16 (
          header_front
          ++ (put_u16 (checksum16 (header_front ++ (put_u16 0 ++ header_end))) ++ header_end))
        ≡ 0)
    × (fold_carries 5 (sum_words 0 (header_front ++ (put_u16 0 ++ header_end)))
        ≡ fold_carries 2 (sum_words 0 (header_front ++ (put_u16 0 ++ header_end))))
checksum16-verifies_example =
    checksum16-verifies 5 header_front header_end refl 3 (omega arith)
      (
        omega arith,
        (
          omega arith,
          (
            omega arith,
            (
              omega arith,
              (
                omega arith,
                (omega arith, (omega arith, (omega arith, (omega arith, (omega arith, tt))))),
              ),
            ),
          ),
        ),
      )
      (
        omega arith,
        (
          omega arith,
          (
            omega arith,
            (omega arith, (omega arith, (omega arith, (omega arith, (omega arith, tt))))),
          ),
        ),
      )

-- Stored with its low byte first, as `ip->sum = checksum16(ip, ip_len)` does, the checksum does not verify.
header_checksum : checksum16 (header_front ++ (0 ∷ 0 ∷ header_end)) ≡ 45078
unfolding checksum16
header_checksum = refl

swapped_checksum : checksum16 (header_front ++ (22 ∷ 176 ∷ header_end)) ≡ 39270
unfolding checksum16
swapped_checksum = refl

abbrev one_address : Bytes → Option Bytes
one_address host = some (192 ∷ 168 ∷ 0 ∷ 9 ∷ [])

one_address-four : (host addr : Bytes) → one_address host ≡ some addr → length addr ≡ 4
one_address-four host addr h = let same : 192 ∷ 168 ∷ 0 ∷ 9 ∷ [] ≡ addr = cc in ap length (sym same)

datagram_raw_send_udp_ipv4-Sends_example :
    Sends one_address true (ok 31) (some 3) (udp_endpoint 5353) peer (1 ∷ 2 ∷ 3 ∷ []) (
      datagram_raw_send_udp_ipv4 one_address true
        (ok 31)
        (some 3)
        (udp_endpoint 5353)
        peer
        (1 ∷ 2 ∷ 3 ∷ []))
datagram_raw_send_udp_ipv4-Sends_example =
    datagram_raw_send_udp_ipv4-Sends one_address one_address-four true (ok 31) (some 3)
      (udp_endpoint 5353) (omega arith) peer (1 ∷ 2 ∷ 3 ∷ [])

-- Every call succeeds but the last, or all of them.
abbrev calls_until : Bool → ListenCalls
calls_until last = record {
  raw_socket = ok 3;
  hdrincl = none;
  mutex_init = none;
  mkdir = none;
  resolve = none;
  unlink = none;
  socket = ok 4;
  broadcast = none;
  v6only = none;
  nonblocking = none;
  reuseaddr = none;
  bind = λ i. bound;
  bind_unix = none;
  getsockname = ok local;
  event_new = true;
  event_add = last;
}

dns_started : start_datagram_route sock_file (calls_until true) dns nothing ≡ (none, listening)
unfolding start_datagram_route
dns_started = refl

-- A packet, and a clean-up when its client is idle.
abbrev with_client : Table
with_client = (get_or_create_client all_work dns.upstream_ep peer 7 listening.table).1

two_steps :
    Reached dns.upstream_ep listening.table (cleanup_idle_datagram_clients 90 60 with_client)
two_steps =
    after (after at_start (packet all_work peer 7 listening.table)) (clean_up 90 60 with_client)

start_datagram_route-IsSound_example :
    IsSound nothing (own_sockets listening) (cleanup_idle_datagram_clients 90 60 with_client)
start_datagram_route-IsSound_example =
    start_datagram_route-IsSound sock_file (calls_until true) nothing dns refl listening
      (cleanup_idle_datagram_clients 90 60 with_client) dns_started two_steps
