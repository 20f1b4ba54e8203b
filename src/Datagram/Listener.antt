-- ===== src/Datagram/Listener.antt =====
-- Binding the listening socket of a datagram route: src/datagram_listener.c.
pub mod Bound
use tinyproxy.Base.{
  ℕ, Bool, true, false, not, List, [], ◌∷◌, ◌++◌, Option, none, some, leb, if◌then◌else◌, Bytes,
  length, Errno, einval, enametoolong, enomem, enotsup, enoent, eio, Result, ok, err,
}
use tinyproxy.Text.{is_nil}
use tinyproxy.Worker.{Socket}
use tinyproxy.Endpoint.{
  EndpointKind, inet, inet6, unix_kind, unix_dgram_kind, file_kind, builtin_kind, Endpoint,
  path_size,
}
use tinyproxy.Route.{BroadcastReplyMode, off, listen, upstream, RouteOptions, Route}
use tinyproxy.Bind.{BindResult, Waited, bind_with_wait}
use tinyproxy.Datagram.{DatagramClient, Effects, Table}
use tinyproxy.Datagram.Client.{open_socket}
use tinyproxy.Datagram.Packet.{DatagramRouteCtx}

-- What the calls outside of the sources give to one start of a route, in order: errors, the numbers
-- of new sockets, the name of the bound socket, and whether event_new and event_add succeed.
-- An error number is not 0.
pub record ListenCalls : Type 0 where
  pub raw_socket : Result ℕ
  pub hdrincl : Option Errno
  pub mutex_init : Option Errno
  pub mkdir : Option Errno
  pub resolve : Option Errno
  pub unlink : Option Errno
  pub socket : Result ℕ
  pub broadcast : Option Errno
  pub v6only : Option Errno
  pub nonblocking : Option Errno
  pub reuseaddr : Option Errno
  pub bind : ℕ → BindResult
  pub bind_unix : Option Errno
  pub getsockname : Result Bytes
  pub event_new : Bool
  pub event_add : Bool

-- A return code, `none` for 0, with the context.
abbrev pub Outcome : Type 0
Outcome = Option Errno × DatagramRouteCtx

-- The next call, unless there was an error.
abbrev pub and_then : Outcome → (DatagramRouteCtx → Outcome) → Outcome
and_then (some e, ctx) next = (some e, ctx)
and_then (none, ctx) next = next ctx

abbrev pub with_effects : Effects → DatagramRouteCtx → DatagramRouteCtx
with_effects fx ctx = record ctx { table = record ctx.table { effects = fx } }

abbrev pub open_listen_fd : Result ℕ → DatagramRouteCtx → Outcome
open_listen_fd (err e) ctx = (some e, ctx)
open_listen_fd (ok fd) ctx =
    (none, record (with_effects (open_socket fd ctx.table.effects) ctx) { listen_fd = some fd })

abbrev pub is_off : BroadcastReplyMode → Bool
is_off off = true
is_off _ = false

abbrev pub is_inet_kind : EndpointKind → Bool
is_inet_kind inet = true
is_inet_kind _ = false

abbrev pub is_inet6_kind : EndpointKind → Bool
is_inet6_kind inet6 = true
is_inet6_kind _ = false

-- An error that is returned as -EINVAL.
abbrev pub or_einval : Option Errno → Option Errno
or_einval none = none
or_einval (some e) = some einval

abbrev pub name_socket : Result Bytes → DatagramRouteCtx → Outcome
name_socket (err e) ctx = (some e, ctx)
name_socket (ok addr) ctx = (none, record ctx { local_addr = addr })

-- event_new and event_add of the listening socket.
abbrev pub add_listen_ev : ListenCalls → DatagramRouteCtx → Outcome
add_listen_ev calls ctx =
    if not calls.event_new
    then (some enomem, ctx)
    else if not calls.event_add
    then (some einval, record ctx { listen_ev = true })
    else (none, record ctx { listen_ev = true })

-- unlink() before the bind: there may be no such file.
abbrev pub unlink_rc : Option Errno → Option Errno
unlink_rc (some enoent) = none
unlink_rc rc = rc

abbrev pub remove_old : ListenCalls → Bytes → DatagramRouteCtx → Outcome
remove_old calls path ctx =
    let fx = ctx.table.effects in
    (unlink_rc calls.unlink, with_effects (record fx { unlinked = fx.unlinked ++ path ∷ [] }) ctx)

unfoldable pub bind_unix_datagram_listener : ListenCalls → DatagramRouteCtx → Outcome
bind_unix_datagram_listener calls ctx =
    let path = ctx.route.listen_ep.path in
    let opened = and_then (remove_old calls path ctx) (open_listen_fd calls.socket) in
    let allowed =
      and_then opened
        (λ c. if is_off c.route.opts.broadcast_reply then (none, c) else (some einval, c)) in
    let ready = and_then allowed (λ c. (calls.nonblocking, c)) in
    let bound = and_then ready (λ c. (calls.bind_unix, c)) in
    let named = and_then bound (name_socket calls.getsockname) in
    if is_nil path
    then (some einval, ctx)
    else if leb path_size (length path)
    then (some enametoolong, ctx)
    else and_then named (add_listen_ev calls)

-- The return code of bind_with_wait, whose loop ends.
abbrev pub wait_rc : Option Waited → Option Errno
wait_rc none = some eio
wait_rc (some w) = w.rc

-- The options of the new socket.
abbrev pub set_broadcast : ListenCalls → DatagramRouteCtx → Outcome
set_broadcast calls ctx =
    if is_off ctx.route.opts.broadcast_reply
    then (none, ctx)
    else if not (is_inet_kind ctx.route.listen_ep.kind)
    then (some einval, ctx)
    else (calls.broadcast, ctx)

abbrev pub set_v6only : ListenCalls → DatagramRouteCtx → Outcome
set_v6only calls ctx =
    if is_inet6_kind ctx.route.listen_ep.kind then (calls.v6only, ctx) else (none, ctx)

-- For the kinds of bind_datagram_listener.
unfoldable pub bind_udp_datagram_listener : ListenCalls → DatagramRouteCtx → Outcome
unfolding bind_with_wait
bind_udp_datagram_listener calls ctx =
    let opened = and_then (calls.resolve, ctx) (open_listen_fd calls.socket) in
    let shared = and_then (and_then opened (set_broadcast calls)) (set_v6only calls) in
    let ready =
      and_then (and_then shared (λ c. (or_einval calls.nonblocking, c)))
        (λ c. (calls.reuseaddr, c)) in
    let bound =
      and_then ready (λ c. (wait_rc (bind_with_wait calls.bind c.route.opts.bind_wait_sec), c)) in
    and_then (and_then bound (name_socket calls.getsockname)) (add_listen_ev calls)

-- The switch of bind_datagram_listener.
bind_kind : ListenCalls → EndpointKind → DatagramRouteCtx → Outcome
unfolding bind_udp_datagram_listener bind_unix_datagram_listener
bind_kind calls inet ctx = bind_udp_datagram_listener calls ctx
bind_kind calls inet6 ctx = bind_udp_datagram_listener calls ctx
bind_kind calls unix_dgram_kind ctx = bind_unix_datagram_listener calls ctx
bind_kind calls _ ctx = (some enotsup, ctx)

unfoldable pub bind_datagram_listener : ListenCalls → DatagramRouteCtx → Outcome
unfolding bind_kind
bind_datagram_listener calls ctx = bind_kind calls ctx.route.listen_ep.kind ctx
