-- ===== src/Stream.antt =====
-- The listening socket of a stream route, from its start to its end: src/stream_listener.c and
-- src/stream_route.c.
pub mod Started
pub mod Tests
use tinyproxy.Base.{
  ℕ, Bool, true, false, not, List, [], ◌∷◌, ◌++◌, Option, none, some, leb, if◌then◌else◌, Bytes,
  length, Errno, einval, enametoolong, enotsup, enoent, Result, ok, err,
}
use tinyproxy.Text.{is_nil}
use tinyproxy.Worker.{Socket}
use tinyproxy.Endpoint.{
  EndpointKind, inet, inet6, unix_kind, unix_dgram_kind, file_kind, builtin_kind, Endpoint,
  path_size,
}
use tinyproxy.Route.{RouteOptions, Route}
use tinyproxy.Bind.{BindResult, bind_with_wait}
use tinyproxy.Datagram.{Effects}
use tinyproxy.Datagram.Client.{close_socket, open_socket}
use tinyproxy.Datagram.Listener.{wait_rc, unlink_rc}
use tinyproxy.Datagram.Lifecycle.{Stat, unlink_socket}

-- `listener` is the socket of the evconnlistener, which closes it when it is freed, or `none` for
-- NULL; `effects` is what was done outside of the program's memory.
pub record StreamRouteCtx : Type 0 where
  pub route : Route
  pub listener : Socket
  pub effects : Effects

-- What the calls outside of the sources give, in order: error codes as the code returns them, with
-- EIO for an error number of 0, and the number of the socket.
pub record StreamCalls : Type 0 where
  pub resolve : Option Errno
  pub unlink : Option Errno
  pub socket : Result ℕ
  pub reuseable : Option Errno
  pub nonblocking : Option Errno
  pub bind : ℕ → BindResult
  pub bind_unix : Option Errno
  pub listen : Option Errno
  pub evconnlistener_new : Option Errno

-- A return code, `none` for 0, with the context.
abbrev pub StreamOutcome : Type 0
StreamOutcome = Option Errno × StreamRouteCtx

-- Calls one after the other, up to the first that fails.
abbrev pub first_error : List (Option Errno) → Option Errno
first_error [] = none
first_error (none ∷ rcs) = first_error rcs
first_error (some e ∷ rcs) = some e

-- The socket is closed after an error.
abbrev pub listen_or_close : ℕ → StreamRouteCtx → Option Errno → StreamOutcome
listen_or_close fd ctx none = (none, record ctx { listener = some fd })
listen_or_close fd ctx (some e) =
    (some e, record ctx { effects = close_socket (some fd) ctx.effects })

-- socket(), then `setup` on it.
abbrev pub with_socket : Option Errno → StreamRouteCtx → Result ℕ → StreamOutcome
with_socket setup ctx (err e) = (some e, ctx)
with_socket setup ctx (ok fd) =
    listen_or_close fd (record ctx { effects = open_socket fd ctx.effects }) setup

abbrev pub after_error : Option Errno → StreamRouteCtx → StreamOutcome → StreamOutcome
after_error (some e) ctx next = (some e, ctx)
after_error none ctx next = next

unfoldable pub bind_tcp_stream_listener : StreamCalls → StreamRouteCtx → StreamOutcome
unfolding bind_with_wait
bind_tcp_stream_listener calls ctx =
    let waited = wait_rc (bind_with_wait calls.bind ctx.route.opts.bind_wait_sec) in
    let setup = first_error (
      calls.reuseable ∷ calls.nonblocking ∷ waited ∷ calls.listen ∷ calls.evconnlistener_new
      ∷ []) in
    after_error calls.resolve ctx (with_socket setup ctx calls.socket)

unfoldable pub bind_unix_stream_listener : StreamCalls → StreamRouteCtx → StreamOutcome
bind_unix_stream_listener calls ctx =
    let path = ctx.route.listen_ep.path in
    let fx = ctx.effects in
    let removed : StreamRouteCtx = record ctx {
      effects = record fx { unlinked = fx.unlinked ++ path ∷ [] };
    } in
    let setup =
      first_error
        (calls.reuseable ∷ calls.nonblocking ∷ calls.bind_unix ∷ calls.evconnlistener_new ∷ []) in
    if is_nil path
    then (some einval, ctx)
    else if leb path_size (length path)
    then (some enametoolong, ctx)
    else after_error (unlink_rc calls.unlink) removed (with_socket setup removed calls.socket)

-- The switch of bind_stream_listener.
bind_by_kind : StreamCalls → EndpointKind → StreamRouteCtx → StreamOutcome
unfolding bind_tcp_stream_listener bind_unix_stream_listener
bind_by_kind calls inet ctx = bind_tcp_stream_listener calls ctx
bind_by_kind calls inet6 ctx = bind_tcp_stream_listener calls ctx
bind_by_kind calls unix_kind ctx = bind_unix_stream_listener calls ctx
bind_by_kind calls _ ctx = (some enotsup, ctx)

unfoldable pub bind_stream_listener : StreamCalls → StreamRouteCtx → StreamOutcome
unfolding bind_by_kind
bind_stream_listener calls ctx = bind_by_kind calls ctx.route.listen_ep.kind ctx

-- After `fx`; after an error the context is set to 0 and only the effects are left of it.
unfoldable pub start_stream_route : StreamCalls → Route → Effects → StreamOutcome
unfolding bind_stream_listener
start_stream_route calls r fx =
    bind_stream_listener calls (record { route = r; listener = none; effects = fx })

abbrev pub is_unix : EndpointKind → Bool
is_unix unix_kind = true
is_unix _ = false

unfoldable pub stop_unix_stream_route : Stat → Route → Effects → Effects
stop_unix_stream_route stat r fx =
    if not (is_unix r.listen_ep.kind)
    then fx
    else if is_nil r.listen_ep.path
    then fx
    else unlink_socket stat r.listen_ep.path fx

unfoldable pub stop_stream_route_listener : StreamRouteCtx → StreamRouteCtx
stop_stream_route_listener ctx = record ctx {
  listener = none;
  effects = close_socket ctx.listener ctx.effects;
}

-- The effects that are left.
unfoldable pub free_stream_route : Stat → StreamRouteCtx → Effects
unfolding stop_unix_stream_route
free_stream_route stat ctx = stop_unix_stream_route stat ctx.route ctx.effects
