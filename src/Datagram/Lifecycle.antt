-- ===== src/Datagram/Lifecycle.antt =====
-- A datagram route from its start to its end: src/datagram_route.c.
pub mod Sockets
use tinyproxy.Base.{
  ℕ, Bool, true, false, not, List, [], ◌∷◌, ◌++◌, Option, none, some, if◌then◌else◌, Bytes, Errno,
  eexist, Result, ok, err,
}
use tinyproxy.Text.{is_nil}
use tinyproxy.Worker.{Socket}
use tinyproxy.Endpoint.{EndpointKind, unix_dgram_kind, Endpoint}
use tinyproxy.Route.{RouteOptions, Route}
use tinyproxy.Datagram.{DatagramClient, Effects, Table}
use tinyproxy.Datagram.Client.{close_socket, free_datagram_client, open_socket}
use tinyproxy.Datagram.Packet.{DatagramRouteCtx, is_upstream_mode}
use tinyproxy.Datagram.Listener.{
  ListenCalls, Outcome, and_then, with_effects, bind_datagram_listener,
}

-- The context of start_datagram_route before its first call, after `fx`.
abbrev pub empty_ctx : Route → Effects → DatagramRouteCtx
empty_ctx r fx = record {
  route = r;
  listen_fd = none;
  listen_ev = false;
  local_addr = [];
  raw_fd = none;
  table = record { clients = []; effects = fx };
}

-- What lstat says of the path: an error, another file, or a socket.
pub data Stat : Type 0 where
  no_stat other_file sock_file : Stat

abbrev pub is_unix_dgram : EndpointKind → Bool
is_unix_dgram unix_dgram_kind = true
is_unix_dgram _ = false

abbrev pub unlink_socket : Stat → Bytes → Effects → Effects
unlink_socket sock_file path fx = record fx { unlinked = fx.unlinked ++ path ∷ [] }
unlink_socket _ path fx = fx

unfoldable pub stop_unix_datagram_route : Stat → Route → Effects → Effects
stop_unix_datagram_route stat r fx =
    if not (is_unix_dgram r.listen_ep.kind)
    then fx
    else if is_nil r.listen_ep.path
    then fx
    else unlink_socket stat r.listen_ep.path fx

unfoldable pub stop_datagram_route_listener : DatagramRouteCtx → DatagramRouteCtx
stop_datagram_route_listener ctx = record ctx { listen_ev = false }

-- The loop of free_datagram_route over the clients.
unfoldable pub free_clients : List DatagramClient → Effects → Effects
unfolding free_datagram_client
free_clients [] fx = fx
free_clients (c ∷ cs) fx = free_clients cs (free_datagram_client c fx)

-- The effects of free_datagram_route, which are all that is left: the memory of the context is set to 0.
unfoldable pub free_datagram_route : Stat → DatagramRouteCtx → Effects
unfolding free_clients stop_unix_datagram_route
free_datagram_route stat ctx = stop_unix_datagram_route stat ctx.route (
    close_socket ctx.listen_fd
      (close_socket ctx.raw_fd (free_clients ctx.table.clients ctx.table.effects)))

abbrev pub after_hdrincl : Option Errno → ℕ → Effects → Result ℕ × Effects
after_hdrincl none fd fx = (ok fd, fx)
after_hdrincl (some e) fd fx = (err e, close_socket (some fd) fx)

abbrev pub open_raw : ListenCalls → Result ℕ → Effects → Result ℕ × Effects
open_raw calls (err e) fx = (err e, fx)
open_raw calls (ok fd) fx = after_hdrincl calls.hdrincl fd (open_socket fd fx)

-- datagram_raw_open_ipv4 of src/datagram_raw.c, with a place for the socket.
unfoldable pub datagram_raw_open_ipv4 : ListenCalls → Effects → Result ℕ × Effects
datagram_raw_open_ipv4 calls fx = open_raw calls calls.raw_socket fx

abbrev pub set_raw_fd : Result ℕ × Effects → DatagramRouteCtx → Outcome
set_raw_fd (err e, fx) ctx = (some e, with_effects fx ctx)
set_raw_fd (ok fd, fx) ctx = (none, record (with_effects fx ctx) { raw_fd = some fd })

abbrev pub open_raw_fd : ListenCalls → DatagramRouteCtx → Outcome
unfolding datagram_raw_open_ipv4
open_raw_fd calls ctx =
    if is_upstream_mode ctx.route.opts.broadcast_reply
    then set_raw_fd (datagram_raw_open_ipv4 calls ctx.table.effects) ctx
    else (none, ctx)

-- compat_mkdir, where the directory may be there.
abbrev pub mkdir_rc : Option Errno → Option Errno
mkdir_rc (some eexist) = none
mkdir_rc rc = rc

unfoldable pub prepare_datagram_route : ListenCalls → DatagramRouteCtx → Outcome
prepare_datagram_route calls ctx =
    if is_unix_dgram ctx.route.upstream_ep.kind then (mkdir_rc calls.mkdir, ctx) else (none, ctx)

-- After an error the context is freed.
abbrev pub or_free : Stat → Outcome → Option Errno × DatagramRouteCtx
or_free stat (none, ctx) = (none, ctx)
or_free stat (some e, ctx) = (some e, empty_ctx ctx.route (free_datagram_route stat ctx))

-- With a lock: the directory, then the listening socket.
abbrev pub listen_with : Stat → ListenCalls → DatagramRouteCtx → Outcome
listen_with stat calls ctx =
    or_free stat (and_then (prepare_datagram_route calls ctx) (bind_datagram_listener calls))

-- compat_mutex_init; after an error the context is set to 0, whatever it holds.
abbrev pub lock_and_listen : Stat → ListenCalls → Option Errno → DatagramRouteCtx → Outcome
lock_and_listen stat calls none ctx = listen_with stat calls ctx
lock_and_listen stat calls (some e) ctx = (some e, empty_ctx ctx.route ctx.table.effects)

unfoldable pub start_datagram_route : Stat → ListenCalls → Route → Effects → Outcome
unfolding free_datagram_route prepare_datagram_route bind_datagram_listener datagram_raw_open_ipv4
start_datagram_route stat calls r fx =
    and_then (open_raw_fd calls (empty_ctx r fx)) (lock_and_listen stat calls calls.mutex_init)
