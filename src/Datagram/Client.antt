-- ===== src/Datagram/Client.antt =====
-- src/datagram_client.c: the clients of a datagram route.
pub mod Addresses
pub mod Create
pub mod Sockets
use tinyproxy.Base.{
  ℕ, ◌+◌, ◌-◌, ◌==◌, Bool, true, false, not, ◌||◌, List, [], ◌∷◌, ◌++◌, Option, none, some, ltb,
  leb, if◌then◌else◌, Bytes, length, take, Errno, einval, enametoolong, enotsup, Result, ok, err,
}
use tinyproxy.Text.{is_nil}
use tinyproxy.Worker.{Socket}
use tinyproxy.Endpoint.{
  EndpointKind, inet, inet6, unix_kind, unix_dgram_kind, file_kind, builtin_kind, Endpoint,
  path_size,
}
use tinyproxy.Datagram.{DatagramClient, Effects, Table, sockaddr_equal}

abbrev pub close_socket : Socket → Effects → Effects
close_socket none fx = fx
close_socket (some fd) fx = record fx { closed = fx.closed ++ fd ∷ [] }

abbrev pub unlink_local : Bytes → Effects → Effects
unlink_local path fx = if is_nil path then fx else record fx { unlinked = fx.unlinked ++ path ∷ [] }

-- For a client that is not NULL. event_free on its event leaves no trace here.
unfoldable pub free_datagram_client : DatagramClient → Effects → Effects
free_datagram_client c fx =
    let done = unlink_local c.unix_local_path (close_socket c.fd fx) in
    record done { freed = done.freed ++ c.id ∷ [] }

-- `now - c->last_seen <= idle_timeout_sec`. A clock that went back gives a negative difference in
-- the source and 0 here.
abbrev pub is_fresh : ℕ → ℕ → DatagramClient → Bool
is_fresh now idle_timeout c = leb (now - c.last_seen) idle_timeout

abbrev pub keep_client : DatagramClient → Table → Table
keep_client c t = record t { clients = c ∷ t.clients }

-- The walk of cleanup_idle_datagram_clients over what is left of the list, after `fx`.
unfoldable pub cleanup_from : ℕ → ℕ → List DatagramClient → Effects → Table
unfolding free_datagram_client
cleanup_from now idle_timeout [] fx = record { clients = []; effects = fx }
cleanup_from now idle_timeout (c ∷ cs) fx =
    let kept = keep_client c (cleanup_from now idle_timeout cs fx) in
    let dropped = cleanup_from now idle_timeout cs (free_datagram_client c fx) in
    if is_fresh now idle_timeout c then kept else dropped

unfoldable pub cleanup_idle_datagram_clients : ℕ → ℕ → Table → Table
unfolding cleanup_from
cleanup_idle_datagram_clients now idle_timeout t = cleanup_from now idle_timeout t.clients t.effects

unfoldable pub find_datagram_client : List DatagramClient → Bytes → Option DatagramClient
find_datagram_client [] addr = none
find_datagram_client (c ∷ cs) addr =
    let rest = find_datagram_client cs addr in
    if sockaddr_equal c.client_addr addr then some c else rest

-- What the calls outside of the sources give to one create_datagram_client: the pointer from calloc,
-- the error of endpoint_to_sockaddr, the sockets and their errors, the text of the local path,
-- whether the socket could be made non-blocking, and whether event_new and event_add succeed.
pub record Calls : Type 0 where
  pub calloc : Option ℕ
  pub resolve : Option Errno
  pub socket : Result ℕ
  pub local_path : Bytes
  pub bind : Option Errno
  pub connect : Option Errno
  pub nonblocking : Bool
  pub event_new : Bool
  pub event_add : Bool

-- A return code, `none` for 0, with the client and the effects.
pub record Connected : Type 0 where
  pub rc : Option Errno
  pub client : DatagramClient
  pub effects : Effects

abbrev pub connected : Option Errno → DatagramClient → Effects → Connected
connected rc c fx = record { rc = rc; client = c; effects = fx }

abbrev pub open_socket : ℕ → Effects → Effects
open_socket fd fx = record fx { opened = fx.opened ++ fd ∷ [] }

-- connect() of an IP socket, which is closed at once on an error.
abbrev pub connect_inet : Option Errno → ℕ → DatagramClient → Effects → Connected
connect_inet none fd c fx = connected none (record c { fd = some fd }) fx
connect_inet (some e) fd c fx =
    connected (some e) (record c { fd = none }) (close_socket (some fd) fx)

abbrev pub inet_socket : Calls → Result ℕ → DatagramClient → Effects → Connected
inet_socket calls (err e) c fx = connected (some e) c fx
inet_socket calls (ok fd) c fx = connect_inet calls.connect fd c (open_socket fd fx)

abbrev pub inet_upstream : Calls → Option Errno → DatagramClient → Effects → Connected
inet_upstream calls (some e) c fx = connected (some e) c fx
inet_upstream calls none c fx = inet_socket calls calls.socket c fx

-- bind() and connect() of a UNIX socket; the caller closes it on an error.
abbrev pub bound_local : Calls → Option Errno → DatagramClient → Effects → Connected
bound_local calls (some e) c fx = connected (some e) c fx
bound_local calls none c fx = connected calls.connect c fx

-- The local path is cut by snprintf where it does not fit, and stays in the client.
abbrev pub bind_local : Calls → DatagramClient → Effects → Connected
bind_local calls c fx =
    let named = record c { unix_local_path = take (path_size - 1) calls.local_path } in
    if leb path_size (length calls.local_path)
    then connected (some enametoolong) named fx
    else bound_local calls calls.bind named
        (record fx { unlinked = fx.unlinked ++ named.unix_local_path ∷ [] })

abbrev pub unix_socket : Calls → Result ℕ → DatagramClient → Effects → Connected
unix_socket calls (err e) c fx = connected (some e) c fx
unix_socket calls (ok fd) c fx = bind_local calls (record c { fd = some fd }) (open_socket fd fx)

abbrev pub unix_upstream : Calls → Bytes → DatagramClient → Effects → Connected
unix_upstream calls path c fx =
    if is_nil path
    then connected (some einval) c fx
    else if leb path_size (length path)
    then connected (some enametoolong) c fx
    else unix_socket calls calls.socket c fx

-- The switch of connect_datagram_upstream.
connect_kind : Calls → EndpointKind → Endpoint → DatagramClient → Effects → Connected
connect_kind calls inet upstream c fx = inet_upstream calls calls.resolve c fx
connect_kind calls inet6 upstream c fx = inet_upstream calls calls.resolve c fx
connect_kind calls unix_dgram_kind upstream c fx = unix_upstream calls upstream.path c fx
connect_kind calls _ upstream c fx = connected (some enotsup) c fx

unfoldable pub connect_datagram_upstream : Calls → Endpoint → DatagramClient → Effects → Connected
unfolding connect_kind
connect_datagram_upstream calls upstream c fx = connect_kind calls upstream.kind upstream c fx

-- The end of create_datagram_client: the client is freed on an error, or put at the head.
abbrev pub give_up : DatagramClient → Table → Effects → Option DatagramClient × Table
give_up c t fx = (none, record t { effects = free_datagram_client c fx })

abbrev pub listen_for_replies :
    Calls → DatagramClient → Table → Effects → Option DatagramClient × Table
listen_for_replies calls c t fx =
    if not calls.nonblocking || not calls.event_new
    then give_up c t fx
    else if not calls.event_add
    then give_up (record c { ev = true }) t fx
    else (
      some (record c { ev = true }),
      record { clients = record c { ev = true } ∷ t.clients; effects = fx },
    )

abbrev pub add_client :
    Calls → Table → DatagramClient → Effects → Option Errno → Option DatagramClient × Table
add_client calls t c fx (some e) = give_up c t fx
add_client calls t c fx none = listen_for_replies calls c t fx

abbrev pub new_client : ℕ → Bytes → ℕ → DatagramClient
new_client id addr now = record {
  id = id;
  fd = none;
  ev = false;
  unix_local_path = [];
  client_addr = addr;
  last_seen = now;
}

abbrev pub with_memory :
    Calls → Endpoint → Bytes → ℕ → Table → Option ℕ → Option DatagramClient × Table
with_memory calls upstream addr now t none = (none, t)
with_memory calls upstream addr now t (some id) =
    let r = connect_datagram_upstream calls upstream (new_client id addr now) t.effects in
    add_client calls t r.client r.effects r.rc

-- `none` is NULL.
unfoldable pub create_datagram_client :
    Calls → Endpoint → Bytes → ℕ → Table → Option DatagramClient × Table
unfolding connect_datagram_upstream free_datagram_client
create_datagram_client calls upstream addr now t =
    with_memory calls upstream addr now t calls.calloc

-- `c->last_seen = now` on the client that find_datagram_client gives.
unfoldable pub see : Bytes → ℕ → List DatagramClient → List DatagramClient
see addr now [] = []
see addr now (c ∷ cs) =
    let rest = see addr now cs in
    if sockaddr_equal c.client_addr addr then record c { last_seen = now } ∷ cs else c ∷ rest

abbrev pub or_create :
    Calls → Endpoint → Bytes → ℕ → Table → Option DatagramClient → Option DatagramClient × Table
or_create calls upstream addr now t (some c) =
    (some (record c { last_seen = now }), record t { clients = see addr now t.clients })
or_create calls upstream addr now t none = create_datagram_client calls upstream addr now t

-- datagram_route_get_or_create_client of src/datagram_listener.c. A new client has been seen at
-- `now` already.
unfoldable pub get_or_create_client :
    Calls → Endpoint → Bytes → ℕ → Table → Option DatagramClient × Table
unfolding find_datagram_client create_datagram_client see
get_or_create_client calls upstream addr now t =
    or_create calls upstream addr now t (find_datagram_client t.clients addr)
