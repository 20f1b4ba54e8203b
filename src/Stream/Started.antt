-- ===== src/Stream/Started.antt =====
-- The listening socket of a stream route of src/stream_route.c, from its start to its end.
use tinyproxy.Base.{
  ℕ, ◌≡◌, refl, inl, inr, Bool-cases, [], ◌∷◌, ◌++◌, Option, none, some, leb, length, count-append,
  arith, Errno, Result, ok, err,
}
use tinyproxy.Text.{is_nil}
use tinyproxy.Endpoint.{
  EndpointKind, inet, inet6, unix_kind, unix_dgram_kind, file_kind, builtin_kind, path_size,
}
use tinyproxy.Route.{Route}
use tinyproxy.Datagram.{Effects}
use tinyproxy.Datagram.Client.{close_socket, open_socket}
use tinyproxy.Datagram.Client.Create.{Balanced}
use tinyproxy.Datagram.Listener.{unlink_rc}
use tinyproxy.Datagram.Lifecycle.{Stat, no_stat, other_file, sock_file, unlink_socket}
use tinyproxy.Stream.{
  StreamRouteCtx, StreamCalls, StreamOutcome, listen_or_close, with_socket, after_error,
  bind_tcp_stream_listener, bind_unix_stream_listener, bind_by_kind, bind_stream_listener,
  start_stream_route, is_unix, stop_unix_stream_route, stop_stream_route_listener,
  free_stream_route,
}

-- A start that failed has closed what it opened. A route that was started listens on a socket, the
-- only one that it has open, and when its listener is stopped and it is freed, none is open.
abbrev pub IsStarted : Stat → Effects → StreamOutcome → Type 0
IsStarted stat fx (some e, c) = Balanced fx c.effects []
IsStarted stat fx (none, c) =
    ((fd : ℕ) × (c.listener ≡ some fd) × Balanced fx c.effects (fd ∷ []))
    × Balanced fx (free_stream_route stat (stop_stream_route_listener c)) []

module _ (stat : Stat) (fx : Effects) where
  stop-Balanced :
      (r : Route) (gx : Effects)
      → Balanced fx gx []
      → Balanced fx (stop_unix_stream_route stat r gx) []
  unfolding stop_unix_stream_route
  stop-Balanced r gx bal = elim (Bool-cases (is_unix r.listen_ep.kind)) [
    | inr other ↦ rw other bal
    | inl unix ↦ elim (Bool-cases (is_nil r.listen_ep.path)) [
      | inl empty ↦ rw (unix, empty) bal
      | inr path ↦ rw (unix, path) (by_stat stat)
    ]
  ]
    where
      by_stat : (s : Stat) → Balanced fx (unlink_socket s r.listen_ep.path gx) []
      by_stat no_stat = bal
      by_stat other_file = bal
      by_stat sock_file = bal

  module _ (ctx : StreamRouteCtx) (bal : Balanced fx ctx.effects []) where
    listen_or_close-IsStarted :
        (fd : ℕ) (rc : Option Errno)
        → IsStarted stat fx
            (listen_or_close fd (record ctx { effects = open_socket fd ctx.effects }) rc)
    unfolding free_stream_route stop_stream_route_listener
    listen_or_close-IsStarted fd none = ((fd, refl, opened), stop-Balanced ctx.route _ closed)
      where
        opened : Balanced fx (open_socket fd ctx.effects) (fd ∷ [])
        opened a = omega (arith, bal a, count-append a ctx.effects.opened (fd ∷ []))

        closed : Balanced fx (close_socket (some fd) (open_socket fd ctx.effects)) []
        closed a = omega (
          arith,
          bal a,
          count-append a ctx.effects.opened (fd ∷ []),
          count-append a ctx.effects.closed (fd ∷ []),
        )
    listen_or_close-IsStarted fd (some e) = λ a. omega (
      arith,
      bal a,
      count-append a ctx.effects.opened (fd ∷ []),
      count-append a ctx.effects.closed (fd ∷ []),
    )

    with_socket-IsStarted :
        (setup : Option Errno) (s : Result ℕ) → IsStarted stat fx (with_socket setup ctx s)
    with_socket-IsStarted setup (err e) = bal
    with_socket-IsStarted setup (ok fd) = listen_or_close-IsStarted fd setup

    after_error-IsStarted :
        (rc : Option Errno) (next : StreamOutcome)
        → IsStarted stat fx next
        → IsStarted stat fx (after_error rc ctx next)
    after_error-IsStarted (some e) next w = bal
    after_error-IsStarted none next w = w

    tcp-IsStarted : (calls : StreamCalls) → IsStarted stat fx (bind_tcp_stream_listener calls ctx)
    unfolding bind_tcp_stream_listener
    tcp-IsStarted calls =
        after_error-IsStarted calls.resolve _ (with_socket-IsStarted _ calls.socket)

  unix-IsStarted :
      (calls : StreamCalls) (ctx : StreamRouteCtx)
      → Balanced fx ctx.effects []
      → IsStarted stat fx (bind_unix_stream_listener calls ctx)
  unfolding bind_unix_stream_listener
  unix-IsStarted calls ctx bal = elim (Bool-cases (is_nil ctx.route.listen_ep.path)) [
    | inl empty ↦ rw empty bal
    | inr path ↦ elim (Bool-cases (leb path_size (length ctx.route.listen_ep.path))) [
      | inl long ↦ rw (path, long) bal
      | inr fits ↦
          let removed : StreamRouteCtx = record ctx {
            effects = record ctx.effects {
              unlinked = ctx.effects.unlinked ++ ctx.route.listen_ep.path ∷ [];
            };
          } in
          rw (path, fits)
            (after_error-IsStarted removed bal (unlink_rc calls.unlink) _
              (with_socket-IsStarted removed bal _ calls.socket))
    ]
  ]

  -- A start of a stream route succeeds, and the route listens on a socket, the only one that it has
  -- open, which its stop closes, so that none is open when it is freed; or it fails, whichever call
  -- failed, and the socket that it opened, if any, is closed.
  pub start_stream_route-IsStarted :
      (calls : StreamCalls) (r : Route) → IsStarted stat fx (start_stream_route calls r fx)
  unfolding start_stream_route bind_stream_listener bind_by_kind
  start_stream_route-IsStarted calls r = by_kind r.listen_ep.kind
    where
      start : StreamRouteCtx
      start = record { route = r; listener = none; effects = fx }

      balanced : Balanced fx fx []
      balanced a = omega arith

      by_kind : (k : EndpointKind) → IsStarted stat fx (bind_by_kind calls k start)
      by_kind inet = tcp-IsStarted start balanced calls
      by_kind inet6 = tcp-IsStarted start balanced calls
      by_kind unix_kind = unix-IsStarted calls start balanced
      by_kind unix_dgram_kind = balanced
      by_kind file_kind = balanced
      by_kind builtin_kind = balanced
