-- ===== src/Runtime/Ends.antt =====
-- A route of src/route_runtime.c in the order of the calls of src/tinyproxy.c: the workers run before
-- and after its listeners are stopped, and no longer when it is freed.
pub mod Tests
use tinyproxy.Base.{
  ◌≡◌, refl, sym, ap, subst, ◌∙◌, arith, inl, inr, Bool, true, false, if◌then◌else◌, [], Option,
  none, some, Errno, einval,
}
use tinyproxy.Endpoint.{Endpoint, endpoint_is_stream, endpoint_is_datagram}
use tinyproxy.Route.{Route}
use tinyproxy.Datagram.{Effects, Table}
use tinyproxy.Datagram.Client.Create.{Balanced}
use tinyproxy.Datagram.Client.Sockets.{Reached, at_start, after}
use tinyproxy.Datagram.Packet.{DatagramRouteCtx}
use tinyproxy.Datagram.Listener.{ListenCalls, Outcome}
use tinyproxy.Datagram.Lifecycle.{
  Stat, start_datagram_route, stop_datagram_route_listener, free_datagram_route,
}
use tinyproxy.Datagram.Lifecycle.Sockets.{
  Started, start_datagram_route-Started, free_datagram_route-no_leak,
}
use tinyproxy.Stream.{
  StreamRouteCtx, StreamCalls, StreamOutcome, start_stream_route, stop_stream_route_listener,
  free_stream_route,
}
use tinyproxy.Stream.Started.{IsStarted, start_stream_route-IsStarted}
use tinyproxy.Runtime.{
  RouteCtx, stream_ctx, datagram_ctx, none_ctx, from_stream, from_datagram, start_route,
  stop_route_listeners, free_route,
}

-- What workers may make of the context of a route: the clients of a datagram route change. The
-- context of a stream route is only read by them; the connections that they make for it, with their
-- sockets, are objects of their own and stand in no context.
abbrev pub Runs : Route → RouteCtx → RouteCtx → Type 0
Runs r (stream_ctx c) d = d ≡ stream_ctx c
Runs r (datagram_ctx c) d =
    (t : Table) × Reached r.upstream_ep c.table t × (d ≡ datagram_ctx (record c { table = t }))
Runs r (none_ctx fx) d = d ≡ none_ctx fx

Reached-then :
    (upstream : Endpoint) (a b c : Table)
    → Reached upstream a b
    → Reached upstream b c
    → Reached upstream a c
Reached-then upstream a b _ first at_start = first
Reached-then upstream a b c first (after {t} earlier step) =
    after (Reached-then upstream a b t first earlier) step

module _ (stat : Stat) (stream_calls : StreamCalls) (datagram_calls : ListenCalls) (r : Route)
    (fx : Effects) (lock : datagram_calls.mutex_init ≡ none) where
  -- Whatever the workers do with the context before and after the listeners are stopped, the sockets
  -- in its effects are closed.
  Leaves : RouteCtx → Type 0
  Leaves c =
      (d e : RouteCtx)
      → Runs r c d
      → Runs r (stop_route_listeners d) e
      → Balanced fx (free_route stat e) []

  stream-Leaves :
      (o : StreamOutcome) (c : RouteCtx)
      → IsStarted stat fx o
      → from_stream o ≡ (none, c)
      → Leaves c
  unfolding Leaves stop_route_listeners free_route
  stream-Leaves (some x, sc) c w h = cc
  stream-Leaves (none, sc) c w h = subst Leaves (ap (λ z. z.1) h) ended
    where
      ended : Leaves (stream_ctx sc)
      ended d e same left =
          let at_end : e ≡ stream_ctx (stop_stream_route_listener sc) =
            subst (λ z. Runs r (stop_route_listeners z) e) same left in
          rw at_end w.1

  datagram-Leaves :
      (o : Outcome) (c : RouteCtx)
      → start_datagram_route stat datagram_calls r fx ≡ o
      → from_datagram o ≡ (none, c)
      → Leaves c
  unfolding Leaves stop_route_listeners free_route stop_datagram_route_listener free_datagram_route
  datagram-Leaves (some x, dc) c started h = cc
  datagram-Leaves (none, dc) c started h = subst Leaves (ap (λ z. z.1) h) ended
    where
      ended : Leaves (datagram_ctx dc)
      ended d e (t, first, same) left =
          let (u, second, at_end) = subst (λ z. Runs r (stop_route_listeners z) e) same left in
          rw at_end (
            free_datagram_route-no_leak stat datagram_calls fx r lock dc u started
              (Reached-then r.upstream_ep dc.table t u first second))

  start_route-Leaves :
      (c : RouteCtx) → start_route stat stream_calls datagram_calls r fx ≡ (none, c) → Leaves c
  unfolding start_route
  start_route-Leaves c =
      by_kind (endpoint_is_stream (some r.listen_ep)) (endpoint_is_datagram (some r.listen_ep))
    where
      by_kind :
          (stream datagram : Bool)
          → (if stream
              then from_stream (start_stream_route stream_calls r fx)
              else if datagram
              then from_datagram (start_datagram_route stat datagram_calls r fx)
              else (some einval, none_ctx fx))
            ≡ (none, c)
          → Leaves c
      by_kind true datagram h =
          stream-Leaves (start_stream_route stream_calls r fx) c
            (start_stream_route-IsStarted stat fx stream_calls r) h
      by_kind false true h =
          datagram-Leaves (start_datagram_route stat datagram_calls r fx) c refl h
      by_kind false false h = cc

  -- A route of either kind that was started, with a lock if it is one of datagrams, whose workers
  -- then run, whose listeners are stopped, whose workers run on until they are joined, and that is
  -- then freed, has closed its own sockets as often as they were opened: its listener, and for a
  -- datagram route its raw socket and its clients' sockets to the upstream. The sockets of a stream
  -- route's connections are not counted.
  pub free_route-no_leak :
      (c d e : RouteCtx)
      → start_route stat stream_calls datagram_calls r fx ≡ (none, c)
      → Runs r c d
      → Runs r (stop_route_listeners d) e
      → Balanced fx (free_route stat e) []
  unfolding Leaves
  free_route-no_leak c d e started running ending = start_route-Leaves c started d e running ending

  -- A start that fails has closed what it opened.
  pub start_route-closed :
      (e : Errno) (c : RouteCtx)
      → start_route stat stream_calls datagram_calls r fx ≡ (some e, c)
      → Balanced fx (free_route stat c) []
  unfolding start_route free_route
  start_route-closed e c =
      by_kind (endpoint_is_stream (some r.listen_ep)) (endpoint_is_datagram (some r.listen_ep))
    where
      closed :
          (f : Errno) (gx : Effects)
          → Balanced fx gx []
          → ◌≡◌ {A = Option Errno × RouteCtx} (some f, none_ctx gx) (some e, c)
          → Balanced fx (free_route stat c) []
      closed f gx bal h = subst (λ z. Balanced fx (free_route stat z) []) (ap (λ z. z.1) h) bal

      from_stream-closed :
          (o : StreamOutcome)
          → IsStarted stat fx o
          → from_stream o ≡ (some e, c)
          → Balanced fx (free_route stat c) []
      from_stream-closed (some x, sc) w h = closed x sc.effects w h
      from_stream-closed (none, sc) w h = cc

      from_datagram-closed :
          (o : Outcome)
          → Started fx o
          → from_datagram o ≡ (some e, c)
          → Balanced fx (free_route stat c) []
      from_datagram-closed (some x, dc) w h = closed x dc.table.effects w h
      from_datagram-closed (none, dc) w h = cc

      by_kind :
          (stream datagram : Bool)
          → (if stream
              then from_stream (start_stream_route stream_calls r fx)
              else if datagram
              then from_datagram (start_datagram_route stat datagram_calls r fx)
              else (some einval, none_ctx fx))
            ≡ (some e, c)
          → Balanced fx (free_route stat c) []
      by_kind true datagram h =
          from_stream-closed (start_stream_route stream_calls r fx)
            (start_stream_route-IsStarted stat fx stream_calls r) h
      by_kind false true h =
          from_datagram-closed (start_datagram_route stat datagram_calls r fx)
            (start_datagram_route-Started stat datagram_calls fx r lock) h
      by_kind false false h = closed einval fx (λ a. omega arith) h
