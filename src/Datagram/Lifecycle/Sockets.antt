-- ===== src/Datagram/Lifecycle/Sockets.antt =====
-- The sockets of a route of src/datagram_route.c, from its start to its end.
use tinyproxy.Base.{
  ℕ, ◌≡◌, refl, sym, ap, subst, ◌∙◌, inl, inr, Bool-cases, List, [], ◌∷◌, ◌++◌, append_assoc,
  append-nil, Option, none, some, count-append, arith, Errno, Result, ok, err,
}
use tinyproxy.Text.{is_nil}
use tinyproxy.Worker.{Socket}
use tinyproxy.Route.{Route}
use tinyproxy.Datagram.{DatagramClient, Effects, Table}
use tinyproxy.Datagram.Client.{close_socket, free_datagram_client, open_socket}
use tinyproxy.Datagram.Client.Create.{socket_of, Balanced}
use tinyproxy.Datagram.Client.Addresses.{sockets_of, free-closed, free-opened}
use tinyproxy.Datagram.Client.Sockets.{IsSound, Reached, Reached-IsSound}
use tinyproxy.Datagram.Packet.{DatagramRouteCtx, is_upstream_mode}
use tinyproxy.Datagram.Listener.{
  ListenCalls, Outcome, and_then, with_effects, bind_datagram_listener,
}
use tinyproxy.Datagram.Listener.Bound.{Listening, Gives, unchanged, bind_datagram_listener-Gives}
use tinyproxy.Datagram.Lifecycle.{
  empty_ctx, Stat, no_stat, other_file, sock_file, is_unix_dgram, unlink_socket,
  stop_unix_datagram_route, free_clients, free_datagram_route, after_hdrincl, open_raw,
  datagram_raw_open_ipv4, set_raw_fd, mkdir_rc, prepare_datagram_route, or_free, listen_with,
  lock_and_listen, start_datagram_route,
}

free_clients-closed :
    (cs : List DatagramClient) (fx : Effects)
    → (free_clients cs fx).closed ≡ fx.closed ++ sockets_of cs
unfolding free_clients
free_clients-closed [] fx = sym (append-nil fx.closed)
free_clients-closed (c ∷ cs) fx =
    free_clients-closed cs (free_datagram_client c fx)
    ∙ ap (λ z. z ++ sockets_of cs) (free-closed c fx)
    ∙ append_assoc fx.closed (socket_of c.fd) (sockets_of cs)

free_clients-opened :
    (cs : List DatagramClient) (fx : Effects) → (free_clients cs fx).opened ≡ fx.opened
unfolding free_clients
free_clients-opened [] fx = refl
free_clients-opened (c ∷ cs) fx =
    free_clients-opened cs (free_datagram_client c fx) ∙ free-opened c fx

close-Balanced :
    (before fx : Effects) (s : Socket) (left : List ℕ)
    → Balanced before fx (socket_of s ++ left)
    → Balanced before (close_socket s fx) left
close-Balanced before fx none left bal a = bal a
close-Balanced before fx (some fd) left bal a =
    omega (arith, bal a, count-append a (fd ∷ []) left, count-append a fx.closed (fd ∷ []))

clients-Balanced :
    (before fx : Effects) (cs : List DatagramClient) (left : List ℕ)
    → Balanced before fx (left ++ sockets_of cs)
    → Balanced before (free_clients cs fx) left
clients-Balanced before fx cs left bal a =
    rw (free_clients-opened cs fx, free_clients-closed cs fx)
      (omega (
        arith,
        bal a,
        count-append a left (sockets_of cs),
        count-append a fx.closed (sockets_of cs),
      ))

stop-Balanced :
    (before fx : Effects) (stat : Stat) (r : Route)
    → Balanced before fx []
    → Balanced before (stop_unix_datagram_route stat r fx) []
unfolding stop_unix_datagram_route
stop-Balanced before fx stat r bal = elim (Bool-cases (is_unix_dgram r.listen_ep.kind)) [
  | inr other ↦ rw other bal
  | inl named ↦ elim (Bool-cases (is_nil r.listen_ep.path)) [
    | inl empty ↦ rw (named, empty) bal
    | inr path ↦ rw (named, path) (by_stat stat)
  ]
]
  where
    by_stat : (s : Stat) → Balanced before (unlink_socket s r.listen_ep.path fx) []
    by_stat no_stat = bal
    by_stat other_file = bal
    by_stat sock_file = bal

-- The sockets of a context that are not a client's.
abbrev pub own_sockets : DatagramRouteCtx → List ℕ
own_sockets ctx = socket_of ctx.raw_fd ++ socket_of ctx.listen_fd

free-Balanced :
    (before : Effects) (stat : Stat) (ctx : DatagramRouteCtx)
    → Balanced before ctx.table.effects (own_sockets ctx ++ sockets_of ctx.table.clients)
    → Balanced before (free_datagram_route stat ctx) []
unfolding free_datagram_route
free-Balanced before stat ctx bal = stop-Balanced before _ stat ctx.route (
    close-Balanced before _ ctx.listen_fd [] (
      rw (append-nil (socket_of ctx.listen_fd)) (
        close-Balanced before _ ctx.raw_fd (socket_of ctx.listen_fd)
          (clients-Balanced before ctx.table.effects ctx.table.clients (own_sockets ctx) bal))))

-- A start of a route: it listens, with a raw socket or without, no clients, and no other socket; or it
-- failed, and every socket that it opened is closed.
abbrev pub Started : Effects → Outcome → Type 0
Started fx (some e, c) = Balanced fx c.table.effects []
Started fx (none, c) =
    Listening c × (c.table.clients ≡ []) × Balanced fx c.table.effects (own_sockets c)

module _ (stat : Stat) (calls : ListenCalls) (fx : Effects) where
  or_free-Started :
      (ctx : DatagramRouteCtx) (o : Outcome)
      → ctx.table.clients ≡ []
      → Balanced fx ctx.table.effects (socket_of ctx.raw_fd)
      → Gives ctx Listening o
      → Started fx (or_free stat o)
  or_free-Started ctx (none, c) empty bal (k, l) = (
    l,
    k.same_clients ∙ empty,
    λ a. rw k.same_raw (
        omega (
          arith,
          bal a,
          k.balanced a,
          count-append a (socket_of ctx.raw_fd) (socket_of c.listen_fd),
        )),
  )
  or_free-Started ctx (some e, c) empty bal k = free-Balanced fx stat c (λ a.
      rw (k.same_raw, k.same_clients ∙ empty)
        (omega (
          arith,
          bal a,
          k.balanced a,
          count-append a (socket_of ctx.raw_fd) (socket_of c.listen_fd),
          count-append a (socket_of ctx.raw_fd ++ socket_of c.listen_fd) [],
        )))

  listen-Started :
      (ctx : DatagramRouteCtx)
      → ctx.listen_fd ≡ none
      → ctx.table.clients ≡ []
      → Balanced fx ctx.table.effects (socket_of ctx.raw_fd)
      → Started fx (listen_with stat calls ctx)
  unfolding prepare_datagram_route
  listen-Started ctx no_fd empty bal =
      elim (Bool-cases (is_unix_dgram ctx.route.upstream_ep.kind)) [
        | inl unix ↦ rw unix (or_free-Started ctx _ empty bal (prepared (mkdir_rc calls.mkdir)))
        | inr other ↦ rw other (or_free-Started ctx _ empty bal (prepared none))
      ]
    where
      prepared :
          (rc : Option Errno)
          → Gives ctx Listening (and_then (rc, ctx) (bind_datagram_listener calls))
      prepared none = bind_datagram_listener-Gives calls ctx no_fd
      prepared (some e) = unchanged calls ctx no_fd

  -- A start of a datagram route with a lock: either it succeeds, and the route listens on a socket and
  -- has no clients, and that socket and the raw one, if the route has it, are all that stays open;
  -- or it fails, whichever call failed, and every socket that it opened is closed.
  pub start_datagram_route-Started :
      (r : Route) → calls.mutex_init ≡ none → Started fx (start_datagram_route stat calls r fx)
  unfolding start_datagram_route datagram_raw_open_ipv4
  start_datagram_route-Started r lock =
      rw lock (elim (Bool-cases (is_upstream_mode r.opts.broadcast_reply)) [
        | inl raw ↦ rw raw (with_raw calls.raw_socket)
        | inr plain ↦ rw plain (listen-Started (empty_ctx r fx) refl refl (λ a. omega arith))
      ])
    where
      opened :
          (fd : ℕ) (rc : Option Errno)
          → Started fx (
              and_then
                (set_raw_fd (after_hdrincl rc fd (open_socket fd fx)) (empty_ctx r fx))
                (lock_and_listen stat calls none))
      opened fd none =
          listen-Started
            (record (with_effects (open_socket fd fx) (empty_ctx r fx)) { raw_fd = some fd }) refl
            refl (λ a. omega (arith, count-append a fx.opened (fd ∷ [])))
      opened fd (some e) =
          λ a. omega (arith, count-append a fx.opened (fd ∷ []), count-append a fx.closed (fd ∷ []))

      with_raw :
          (s : Result ℕ)
          → Started fx (
              and_then
                (set_raw_fd (open_raw calls s fx) (empty_ctx r fx))
                (lock_and_listen stat calls none))
      with_raw (err e) = λ a. omega arith
      with_raw (ok fd) = opened fd calls.hdrincl

  module _ (r : Route) (lock : calls.mutex_init ≡ none) (c : DatagramRouteCtx) (t : Table)
      (started : start_datagram_route stat calls r fx ≡ (none, c))
      (reached : Reached r.upstream_ep c.table t) where
    -- Whatever packets come to a datagram route that was started with a lock, whichever of its calls
    -- fail, and whenever its idle clients are removed: no two clients have one address, each
    -- listens on a socket, and the sockets that are open since before the start are exactly the
    -- route's own and the clients', each as often as it was given.
    pub start_datagram_route-IsSound : IsSound fx (own_sockets c) t
    start_datagram_route-IsSound =
        Reached-IsSound fx (own_sockets c) r.upstream_ep c.table t at_start reached
      where
        good : Started fx (none, c)
        good = subst (Started fx) started (start_datagram_route-Started r lock)

        at_start : IsSound fx (own_sockets c) c.table
        at_start = (
          rw good.1 tt,
          λ a. rw good.1 (omega (arith, good.2 a, count-append a (own_sockets c) [])),
        )

    -- When a datagram route that was started with a lock is freed after any packets and clean-ups,
    -- every socket that was opened since before the start is closed, as often as it was opened.
    pub free_datagram_route-no_leak :
        Balanced fx (free_datagram_route stat (record c { table = t })) []
    free_datagram_route-no_leak =
        free-Balanced fx stat (record c { table = t }) start_datagram_route-IsSound.1
