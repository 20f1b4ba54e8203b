-- ===== src/Datagram/Listener/Bound.antt =====
-- Every way through bind_datagram_listener of src/datagram_listener.c.
use tinyproxy.Base.{
  ℕ, ◌≡◌, refl, inl, inr, true, Bool-cases, [], ◌∷◌, ◌++◌, Option, none, some, leb, if◌then◌else◌,
  Bytes, length, count, count-append, arith, Errno, einval, Result, ok, err,
}
use tinyproxy.Text.{is_nil}
use tinyproxy.Endpoint.{
  EndpointKind, inet, inet6, unix_kind, unix_dgram_kind, file_kind, builtin_kind, path_size,
}
use tinyproxy.Bind.{bind_with_wait}
use tinyproxy.Datagram.Client.Create.{socket_of, Balanced}
use tinyproxy.Datagram.Packet.{DatagramRouteCtx}
use tinyproxy.Datagram.Listener.{
  ListenCalls, Outcome, and_then, with_effects, open_listen_fd, is_off, is_inet_kind, is_inet6_kind,
  or_einval, name_socket, add_listen_ev, unlink_rc, remove_old, bind_unix_datagram_listener,
  wait_rc, set_broadcast, set_v6only, bind_udp_datagram_listener, bind_kind, bind_datagram_listener,
}

-- Nothing but the listening socket, its event, its name and the effects has changed, and every
-- socket that was opened is the context's or closed.
pub record Kept (before c : DatagramRouteCtx) : Type 0 where
  pub same_route : c.route ≡ before.route
  pub same_raw : c.raw_fd ≡ before.raw_fd
  pub same_clients : c.table.clients ≡ before.table.clients
  pub balanced : Balanced before.table.effects c.table.effects (socket_of c.listen_fd)

abbrev pub NoFd : DatagramRouteCtx → Type 0
NoFd c = c.listen_fd ≡ none

abbrev pub HasFd : DatagramRouteCtx → Type 0
HasFd c = (fd : ℕ) × (c.listen_fd ≡ some fd)

abbrev pub Listening : DatagramRouteCtx → Type 0
Listening c = HasFd c × (c.listen_ev ≡ true)

-- After a success `P` holds.
abbrev pub Gives : DatagramRouteCtx → (DatagramRouteCtx → Type 0) → Outcome → Type 0
Gives before P (some e, c) = Kept before c
Gives before P (none, c) = Kept before c × P c

module _ (before : DatagramRouteCtx) where
  and_then-Gives :
      (P Q : DatagramRouteCtx → Type 0) (o : Outcome) (next : DatagramRouteCtx → Outcome)
      → Gives before P o
      → ((c : DatagramRouteCtx) → Kept before c → P c → Gives before Q (next c))
      → Gives before Q (and_then o next)
  and_then-Gives P Q (some e, c) next k go = k
  and_then-Gives P Q (none, c) next (k, p) go = go c k p

  -- A call that changes nothing.
  same-Gives :
      (P : DatagramRouteCtx → Type 0) (rc : Option Errno) (c : DatagramRouteCtx)
      → Kept before c
      → P c
      → Gives before P (rc, c)
  same-Gives P none c k p = (k, p)
  same-Gives P (some e) c k p = k

  open-Gives :
      (s : Result ℕ) (c : DatagramRouteCtx)
      → Kept before c
      → NoFd c
      → Gives before HasFd (open_listen_fd s c)
  open-Gives (err e) c k no_fd = k
  open-Gives (ok fd) c k no_fd = (
    record {
      same_route = k.same_route;
      same_raw = k.same_raw;
      same_clients = k.same_clients;
      balanced = λ a.
          omega (arith, count-append a c.table.effects.opened (fd ∷ []), k.balanced a, nothing a);
    },
    (fd, refl),
  )
    where
      nothing : (a : ℕ) → count a (socket_of c.listen_fd) ≡ 0
      nothing a = rw no_fd refl

  name-Gives :
      (named : Result Bytes) (c : DatagramRouteCtx)
      → Kept before c
      → HasFd c
      → Gives before HasFd (name_socket named c)
  name-Gives (err e) c k has = k
  name-Gives (ok addr) c k has = (
    record {
      same_route = k.same_route;
      same_raw = k.same_raw;
      same_clients = k.same_clients;
      balanced = k.balanced;
    },
    has,
  )

  listen-Gives :
      (calls : ListenCalls) (c : DatagramRouteCtx)
      → Kept before c
      → HasFd c
      → Gives before Listening (add_listen_ev calls c)
  listen-Gives calls c k has = elim (Bool-cases calls.event_new) [
    | inr failed ↦ rw failed k
    | inl made ↦ elim (Bool-cases calls.event_add) [
      | inr failed ↦ rw (made, failed) (with_event k)
      | inl added ↦ rw (made, added) (with_event k, (has, refl))
    ]
  ]
    where
      with_event : Kept before c → Kept before (record c { listen_ev = true })
      with_event w = record {
        same_route = w.same_route;
        same_raw = w.same_raw;
        same_clients = w.same_clients;
        balanced = w.balanced;
      }

module _ (calls : ListenCalls) (ctx : DatagramRouteCtx) (no_fd : NoFd ctx) where
  pub unchanged : Kept ctx ctx
  unchanged = record {
    same_route = refl;
    same_raw = refl;
    same_clients = refl;
    balanced = λ a. omega (arith, nothing a);
  }
    where
      nothing : (a : ℕ) → count a (socket_of ctx.listen_fd) ≡ 0
      nothing a = rw no_fd refl

  -- getsockname and the event, after the bind.
  finish-Gives :
      (o : Outcome)
      → Gives ctx HasFd o
      → Gives ctx Listening
          (and_then (and_then o (name_socket calls.getsockname)) (add_listen_ev calls))
  finish-Gives o h =
      and_then-Gives ctx HasFd Listening (and_then o (name_socket calls.getsockname))
        (add_listen_ev calls)
        (and_then-Gives ctx HasFd HasFd o (name_socket calls.getsockname) h
          (name-Gives ctx calls.getsockname))
        (listen-Gives ctx calls)

  -- A call that changes nothing and may depend on the context.
  check-Gives :
      (check : DatagramRouteCtx → Option Errno) (o : Outcome)
      → Gives ctx HasFd o
      → Gives ctx HasFd (and_then o (λ c. (check c, c)))
  check-Gives check o h =
      and_then-Gives ctx HasFd HasFd o (λ c. (check c, c)) h
        (λ c k p. same-Gives ctx HasFd (check c) c k p)

  broadcast-Gives :
      (c : DatagramRouteCtx) → Kept ctx c → HasFd c → Gives ctx HasFd (set_broadcast calls c)
  broadcast-Gives c k has = elim (Bool-cases (is_off c.route.opts.broadcast_reply)) [
    | inl none_set ↦ rw none_set (k, has)
    | inr set ↦ elim (Bool-cases (is_inet_kind c.route.listen_ep.kind)) [
      | inl ipv4 ↦ rw (set, ipv4) (same-Gives ctx HasFd calls.broadcast c k has)
      | inr other ↦ rw (set, other) k
    ]
  ]

  v6only-Gives :
      (c : DatagramRouteCtx) → Kept ctx c → HasFd c → Gives ctx HasFd (set_v6only calls c)
  v6only-Gives c k has = elim (Bool-cases (is_inet6_kind c.route.listen_ep.kind)) [
    | inl ipv6 ↦ rw ipv6 (same-Gives ctx HasFd calls.v6only c k has)
    | inr other ↦ rw other (k, has)
  ]

  udp-Gives : Gives ctx Listening (bind_udp_datagram_listener calls ctx)
  unfolding bind_udp_datagram_listener
  udp-Gives = finish-Gives _ (
      check-Gives (λ c. wait_rc (bind_with_wait calls.bind c.route.opts.bind_wait_sec)) _
        (check-Gives (λ c. calls.reuseaddr) _
          (check-Gives (λ c. or_einval calls.nonblocking) _
            (and_then-Gives ctx HasFd HasFd _ (set_v6only calls)
              (and_then-Gives ctx HasFd HasFd _ (set_broadcast calls)
                (and_then-Gives ctx NoFd HasFd (calls.resolve, ctx) (open_listen_fd calls.socket)
                  (same-Gives ctx NoFd calls.resolve ctx unchanged no_fd)
                  (open-Gives ctx calls.socket))
                broadcast-Gives)
              v6only-Gives))))

  removed-Gives : Gives ctx NoFd (remove_old calls ctx.route.listen_ep.path ctx)
  removed-Gives = same-Gives ctx NoFd (unlink_rc calls.unlink) _ without (no_fd)
    where
      without : Kept ctx (
          with_effects
            (record ctx.table.effects {
              unlinked = ctx.table.effects.unlinked ++ ctx.route.listen_ep.path ∷ [];
            })
            ctx)
      without = record {
        same_route = refl;
        same_raw = refl;
        same_clients = refl;
        balanced = unchanged.balanced;
      }

  allowed-Gives :
      (c : DatagramRouteCtx)
      → Kept ctx c
      → HasFd c
      → Gives ctx HasFd
          (if is_off c.route.opts.broadcast_reply then (none, c) else (some einval, c))
  allowed-Gives c k has = elim (Bool-cases (is_off c.route.opts.broadcast_reply)) [
    | inl none_set ↦ rw none_set (k, has)
    | inr set ↦ rw set k
  ]

  unix-Gives : Gives ctx Listening (bind_unix_datagram_listener calls ctx)
  unfolding bind_unix_datagram_listener
  unix-Gives = elim (Bool-cases (is_nil ctx.route.listen_ep.path)) [
    | inl empty ↦ rw empty unchanged
    | inr path ↦ elim (Bool-cases (leb path_size (length ctx.route.listen_ep.path))) [
      | inl long ↦ rw (path, long) unchanged
      | inr fits ↦
          rw (path, fits)
            (finish-Gives _ (
              check-Gives (λ c. calls.bind_unix) _
                (check-Gives (λ c. calls.nonblocking) _
                  (and_then-Gives ctx HasFd HasFd _ _
                    (and_then-Gives ctx NoFd HasFd _ (open_listen_fd calls.socket) removed-Gives
                      (open-Gives ctx calls.socket))
                    allowed-Gives))))
    ]
  ]

  pub bind_datagram_listener-Gives : Gives ctx Listening (bind_datagram_listener calls ctx)
  unfolding bind_datagram_listener bind_kind
  bind_datagram_listener-Gives = by_kind ctx.route.listen_ep.kind
    where
      by_kind : (kind : EndpointKind) → Gives ctx Listening (bind_kind calls kind ctx)
      by_kind inet = udp-Gives
      by_kind inet6 = udp-Gives
      by_kind unix_dgram_kind = unix-Gives
      by_kind unix_kind = unchanged
      by_kind file_kind = unchanged
      by_kind builtin_kind = unchanged
