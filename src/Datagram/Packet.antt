-- ===== src/Datagram/Packet.antt =====
-- A packet of a datagram route, from the listening socket to the upstream, and the replies back:
-- src/datagram_listener.c, src/datagram_client.c and src/datagram_builtin.c.
pub mod Announce
pub mod Forward
use tinyproxy.Base.{
  ℕ, ◌+◌, ◌-◌, ◌*◌, ◌==◌, Bool, true, false, not, ◌&&◌, List, [], ◌∷◌, ◌++◌, Option, none, some,
  ltb, if◌then◌else◌, Bytes, codes, length, get_elem?, take, Errno, einval, eafnosupport, emsgsize,
  enomem, eio, Result, ok, err,
}
use tinyproxy.Text.{is_nil}
use tinyproxy.Text.Decimal.{decimal}
use tinyproxy.Worker.{Socket, Sent, Worker, Enqueued, worker_enqueue_datagram_packet}
use tinyproxy.Pool.{WorkerPool, worker_pool_next, update}
use tinyproxy.Endpoint.{EndpointKind, builtin_kind, Endpoint}
use tinyproxy.Route.{BroadcastReplyMode, off, listen, upstream, RouteOptions, Route}
use tinyproxy.Builtin.{
  XBuiltinAction, close_action, discard_action, hang_action, http_resp_action, XBuiltinResponse,
  x_builtin_handle,
}
use tinyproxy.Proxy.{Sockaddr, sockaddr_in, sockaddr_in6, other_family, sock_dgram, proxy_v2_build}
use tinyproxy.Datagram.{
  DatagramClient, Table, ss_family, af_inet, af_inet6, storage_byte, storage_bytes,
}
use tinyproxy.Datagram.Client.{Calls, get_or_create_client, cleanup_idle_datagram_clients}
use tinyproxy.Datagram.Raw.{Sending, sent_all, datagram_raw_send_udp_ipv4}

-- `table` is `clients`, with what was done outside of the program's memory.
pub record DatagramRouteCtx : Type 0 where
  pub route : Route
  pub listen_fd : Socket
  pub listen_ev : Bool
  pub local_addr : Bytes
  pub raw_fd : Socket
  pub table : Table

-- UDP_MAX_PACKET
abbrev pub udp_max_packet : ℕ
udp_max_packet = 65535

-- A `struct sockaddr_storage` as its family says: the port is at 2, the address at 4 or at 8.
abbrev pub as_sockaddr : Bytes → Sockaddr
as_sockaddr addr =
    if ss_family addr == af_inet
    then sockaddr_in (storage_bytes 4 4 addr) (storage_bytes 2 2 addr)
    else if ss_family addr == af_inet6
    then sockaddr_in6 (storage_bytes 8 16 addr) (storage_bytes 2 2 addr)
    else other_family (ss_family addr)

-- A return code, `none` for 0, and what was given to send or sendto: the descriptor and the packet.
pub record Outgoing : Type 0 where
  pub rc : Option Errno
  pub given : Option (Socket × Bytes)

abbrev pub dropped : Errno → Outgoing
dropped e = record { rc = some e; given = none }

-- `sent` is the error of the call, or `none`.
abbrev pub attempted : Option Errno → Socket → Bytes → Outgoing
attempted sent fd payload = record { rc = sent; given = some (fd, payload) }

-- A packet of datagram_raw_send_udp_ipv4 goes to its `raw_fd`.
abbrev pub on_socket : Socket → Sending → Outgoing
on_socket fd s = record {
  rc = s.rc;
  given = elim s.packet [ none ↦ none | some packet ↦ some (fd, packet) ];
}

abbrev pub send_with_header : Option Errno → Socket → Bytes → Result Bytes → Outgoing
send_with_header sent fd payload (err e) = dropped e
send_with_header sent fd payload (ok hdr) =
    if ltb udp_max_packet (length hdr + length payload)
    then dropped emsgsize
    else attempted sent fd (hdr ++ payload)

-- For a route with the option `proxy_v2`, and the local address of its listener. `hdr` has 256 bytes.
unfoldable pub send_datagram_payload_to_upstream :
    Option Errno → Bool → Bytes → DatagramClient → Bytes → Outgoing
unfolding proxy_v2_build
send_datagram_payload_to_upstream sent proxy_v2 local_addr c payload =
    if not proxy_v2
    then attempted sent c.fd payload
    else if not (ss_family c.client_addr == af_inet && ss_family local_addr == af_inet)
    then dropped eafnosupport
    else send_with_header sent c.fd payload (
        proxy_v2_build 256 (as_sockaddr c.client_addr) (length c.client_addr)
          (as_sockaddr local_addr) (length local_addr) sock_dgram)

-- What the calls outside of the sources give to one reply: see datagram_raw_send_udp_ipv4. `sendto`
-- returns the number of bytes.
pub record ReplyCalls : Type 0 where
  pub inet_pton : Bytes → Option Bytes
  pub alloc : Bool
  pub sendto : Result ℕ

abbrev pub is_upstream_mode : BroadcastReplyMode → Bool
is_upstream_mode upstream = true
is_upstream_mode _ = false

unfoldable pub send_datagram_payload_to_client :
    ReplyCalls → DatagramRouteCtx → Bytes → Bytes → Outgoing
unfolding datagram_raw_send_udp_ipv4
send_datagram_payload_to_client calls ctx client_addr payload =
    if is_upstream_mode ctx.route.opts.broadcast_reply
    then on_socket ctx.raw_fd (
        datagram_raw_send_udp_ipv4 calls.inet_pton calls.alloc calls.sendto ctx.raw_fd
          ctx.route.upstream_ep client_addr payload)
    else attempted (sent_all (length payload) calls.sendto) ctx.listen_fd payload

-- The replies that are sent for the results of recv, which ends with an error, with no bytes, or where
-- the list ends; each has the calls of its own reply. After a reply that fails no more are read.
abbrev pub reply_and_go_on : Outgoing → List Outgoing → List Outgoing
reply_and_go_on s later = elim s.rc [ none ↦ s ∷ later | some e ↦ s ∷ [] ]

unfoldable pub upstream_read_cb :
    DatagramRouteCtx → Bytes → List (Result Bytes × ReplyCalls) → List Outgoing
unfolding send_datagram_payload_to_client
upstream_read_cb ctx client_addr [] = []
upstream_read_cb ctx client_addr ((err e, calls) ∷ rest) = []
upstream_read_cb ctx client_addr ((ok payload, calls) ∷ rest) =
    let later = upstream_read_cb ctx client_addr rest in
    if is_nil payload
    then []
    else reply_and_go_on (send_datagram_payload_to_client calls ctx client_addr payload) later

-- `inet_ntop` gives the text of an address of a family, or `none` where it fails. The buffer has 128
-- bytes.
abbrev pub with_port : Bytes → Option Bytes → Option Bytes
with_port addr none = none
with_port addr (some text) =
    let port = storage_byte 2 addr * 256 + storage_byte 3 addr in
    some (text ++ take (127 - length text) (b':' ∷ decimal port))

unfoldable pub datagram_client_addr_string : (ℕ → Bytes → Option Bytes) → Bytes → Option Bytes
datagram_client_addr_string inet_ntop addr =
    if ss_family addr == af_inet
    then with_port addr (inet_ntop af_inet (storage_bytes 4 4 addr))
    else if ss_family addr == af_inet6
    then with_port addr (inet_ntop af_inet6 (storage_bytes 8 16 addr))
    else some (codes "unknown")

abbrev pub nothing_sent : Outgoing
nothing_sent = record { rc = none; given = none }

abbrev pub run_action : Option Errno → Socket → XBuiltinAction → Bytes → Outgoing
run_action sent fd close_action payload =
    if is_nil payload then nothing_sent else attempted sent fd payload
run_action sent fd discard_action payload = nothing_sent
run_action sent fd hang_action payload = nothing_sent
run_action sent fd http_resp_action payload = dropped einval

abbrev pub answer : Option Errno → Socket → Result XBuiltinResponse → Outgoing
answer sent fd (err e) = dropped e
answer sent fd (ok res) = run_action sent fd res.action res.payload

-- start_datagram_builtin on the client that handle_datagram_builtin_packet makes.
unfoldable pub start_datagram_builtin :
    (ℕ → Bytes → Option Bytes) → Option Errno → DatagramRouteCtx → Bytes → Outgoing
unfolding datagram_client_addr_string x_builtin_handle
start_datagram_builtin inet_ntop sent ctx addr =
    answer sent ctx.listen_fd
      (x_builtin_handle (record {
        builtin = ctx.route.upstream_ep.builtin_id;
        client_addr = datagram_client_addr_string inet_ntop addr;
      })).0

abbrev pub is_builtin_kind : EndpointKind → Bool
is_builtin_kind builtin_kind = true
is_builtin_kind _ = false

abbrev pub send_from :
    Option Errno → DatagramRouteCtx → Bytes → Option DatagramClient × Table → Outgoing × Table
send_from sent ctx payload (none, t) = (dropped enomem, t)
send_from sent ctx payload (some c, t) =
    (send_datagram_payload_to_upstream sent ctx.route.opts.proxy_v2 ctx.local_addr c payload, t)

unfoldable pub datagram_route_handle_packet :
    (ℕ → Bytes → Option Bytes)
    → Calls
    → Option Errno
    → ℕ
    → DatagramRouteCtx
    → Bytes
    → Bytes
    → Outgoing × Table
unfolding start_datagram_builtin send_datagram_payload_to_upstream get_or_create_client
datagram_route_handle_packet inet_ntop calls sent now ctx peer_addr payload =
    if is_builtin_kind ctx.route.upstream_ep.kind
    then (start_datagram_builtin inet_ntop sent ctx peer_addr, ctx.table)
    else send_from sent ctx payload
        (get_or_create_client calls ctx.route.upstream_ep peer_addr now ctx.table)

-- The case WORKER_MSG_DATAGRAM_PACKET of worker_process_msg in src/worker.c.
unfoldable pub process_datagram_packet :
    (ℕ → Bytes → Option Bytes)
    → Calls
    → Option Errno
    → ℕ
    → DatagramRouteCtx
    → Bytes
    → Bytes
    → Outgoing × Table
unfolding datagram_route_handle_packet cleanup_idle_datagram_clients
process_datagram_packet inet_ntop calls sent now ctx peer_addr payload =
    datagram_route_handle_packet inet_ntop calls sent now
      (record ctx {
        table = cleanup_idle_datagram_clients now ctx.route.opts.idle_timeout_sec ctx.table;
      })
      peer_addr payload

-- The queue of the worker at `i`, after its enqueue.
abbrev pub queued : ℕ → WorkerPool → Enqueued → Option Errno × WorkerPool
queued i pool r = (r.rc, record pool { workers = update i r.worker pool.workers })

abbrev pub enqueue_at :
    Bool
    → Bool
    → Sent
    → ℕ
    → ℕ
    → Socket
    → Bytes
    → Bytes
    → ℕ
    → WorkerPool
    → Option Worker
    → Option Errno × WorkerPool
enqueue_at alloc alloc_data sent route ctx listen_fd peer_addr payload i pool none =
    (some einval, pool)
enqueue_at alloc alloc_data sent route ctx listen_fd peer_addr payload i pool (some w) =
    queued i pool (
      worker_enqueue_datagram_packet alloc alloc_data sent w route ctx listen_fd (some peer_addr)
        (length peer_addr) (some payload) (length payload) [])

abbrev pub enqueue_next :
    Bool
    → Bool
    → Sent
    → ℕ
    → ℕ
    → Socket
    → Bytes
    → Bytes
    → Option ℕ × WorkerPool
    → Option Errno × WorkerPool
enqueue_next alloc alloc_data sent route ctx listen_fd peer_addr payload (none, pool) =
    (some einval, pool)
enqueue_next alloc alloc_data sent route ctx listen_fd peer_addr payload (some i, pool) =
    enqueue_at alloc alloc_data sent route ctx listen_fd peer_addr payload i pool
      (get_elem? pool.workers i)

-- A context and its route stand by number for the pointers, as in a worker's messages. The pool is
-- not NULL; the code that is returned is positive.
unfoldable pub dispatch_datagram_packet :
    Bool → Bool → Sent → ℕ → ℕ → Socket → Bytes → Bytes → WorkerPool → Option Errno × WorkerPool
unfolding worker_pool_next worker_enqueue_datagram_packet
dispatch_datagram_packet alloc alloc_data sent route ctx listen_fd peer_addr payload pool =
    enqueue_next alloc alloc_data sent route ctx listen_fd peer_addr payload (worker_pool_next pool)

-- `recvfrom` gives the address of the peer and the packet, or an error.
unfoldable pub listen_read_cb :
    Bool → Bool → Sent → ℕ → ℕ → Socket → Result (Bytes × Bytes) → WorkerPool → WorkerPool
unfolding dispatch_datagram_packet
listen_read_cb alloc alloc_data sent route ctx listen_fd (err e) pool = pool
listen_read_cb alloc alloc_data sent route ctx listen_fd (ok (peer_addr, payload)) pool =
    (dispatch_datagram_packet alloc alloc_data sent route ctx listen_fd peer_addr payload pool).1
