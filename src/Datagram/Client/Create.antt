-- ===== src/Datagram/Client/Create.antt =====
-- Every way through create_datagram_client of src/datagram_client.c.
use tinyproxy.Base.{
  ℕ, ◌+◌, ◌-◌, ◌≡◌, refl, inl, inr, true, not, ◌||◌, List, [], ◌∷◌, ◌++◌, Option, none, some, leb,
  Bool-cases, Bytes, length, take, count, count-append, arith, Errno, Result, ok, err,
}
use tinyproxy.Text.{is_nil}
use tinyproxy.Worker.{Socket}
use tinyproxy.Endpoint.{
  EndpointKind, inet, inet6, unix_kind, unix_dgram_kind, file_kind, builtin_kind, Endpoint,
  path_size,
}
use tinyproxy.Datagram.{DatagramClient, Effects, Table}
use tinyproxy.Datagram.Client.{
  close_socket, unlink_local, free_datagram_client, Calls, Connected, connected, open_socket,
  connect_inet, inet_socket, inet_upstream, bound_local, bind_local, unix_socket, unix_upstream,
  connect_kind, connect_datagram_upstream, give_up, listen_for_replies, add_client, new_client,
  with_memory, create_datagram_client,
}

-- The socket that a client owns.
abbrev pub socket_of : Socket → List ℕ
socket_of none = []
socket_of (some fd) = fd ∷ []

-- Sockets opened and not closed since `before`, as often as they are in `left`.
abbrev pub Balanced : Effects → Effects → List ℕ → Type 0
Balanced before after left =
    (a : ℕ)
    → count a after.opened + count a before.closed
      ≡ count a before.opened + count a after.closed + count a left

-- What connect_datagram_upstream makes of a client that has no socket.
pub record IsConnected (c : DatagramClient) (fx : Effects) (r : Connected) : Type 0 where
  pub same_id : r.client.id ≡ c.id
  pub same_addr : r.client.client_addr ≡ c.client_addr
  pub same_seen : r.client.last_seen ≡ c.last_seen
  pub same_freed : r.effects.freed ≡ fx.freed
  pub balanced : Balanced fx r.effects (socket_of r.client.fd)
  pub has_socket : r.rc ≡ none → (fd : ℕ) × (r.client.fd ≡ some fd)

failed-IsConnected :
    (e : Errno) (c : DatagramClient) (fx : Effects)
    → c.fd ≡ none
    → IsConnected c fx (connected (some e) c fx)
failed-IsConnected e c fx no_fd = record {
  same_id = refl;
  same_addr = refl;
  same_seen = refl;
  same_freed = refl;
  balanced = λ a. rw no_fd (omega arith);
  has_socket = λ h. absurd (none_some h);
}
  where
    none_some : some e ≡ none → ⊥
    none_some h = cc

connect_inet-IsConnected :
    (rc : Option Errno) (fd : ℕ) (c : DatagramClient) (fx : Effects)
    → c.fd ≡ none
    → IsConnected c fx (connect_inet rc fd c (open_socket fd fx))
connect_inet-IsConnected none fd c fx no_fd = record {
  same_id = refl;
  same_addr = refl;
  same_seen = refl;
  same_freed = refl;
  balanced = λ a. omega (arith, count-append a fx.opened (fd ∷ []));
  has_socket = λ h. (fd, refl);
}
connect_inet-IsConnected (some e) fd c fx no_fd = record {
  same_id = refl;
  same_addr = refl;
  same_seen = refl;
  same_freed = refl;
  balanced =
      λ a. omega (arith, count-append a fx.opened (fd ∷ []), count-append a fx.closed (fd ∷ []));
  has_socket = λ h. absurd (none_some h);
}
  where
    none_some : some e ≡ none → ⊥
    none_some h = cc

inet-IsConnected :
    (calls : Calls) (c : DatagramClient) (fx : Effects)
    → c.fd ≡ none
    → IsConnected c fx (inet_upstream calls calls.resolve c fx)
inet-IsConnected calls c fx no_fd = resolved calls.resolve
  where
    with_socket : (s : Result ℕ) → IsConnected c fx (inet_socket calls s c fx)
    with_socket (err e) = failed-IsConnected e c fx no_fd
    with_socket (ok fd) = connect_inet-IsConnected calls.connect fd c fx no_fd

    resolved : (o : Option Errno) → IsConnected c fx (inet_upstream calls o c fx)
    resolved (some e) = failed-IsConnected e c fx no_fd
    resolved none = with_socket calls.socket

-- A UNIX socket is open, whatever bind and connect give.
opened-IsConnected :
    (rc : Option Errno) (fd : ℕ) (path : Bytes) (gone : List Bytes) (c : DatagramClient)
    (fx : Effects)
    → IsConnected c fx (
        connected rc
          (record c { fd = some fd; unix_local_path = path })
          (record fx { opened = fx.opened ++ fd ∷ []; unlinked = gone }))
opened-IsConnected rc fd path gone c fx = record {
  same_id = refl;
  same_addr = refl;
  same_seen = refl;
  same_freed = refl;
  balanced = λ a. omega (arith, count-append a fx.opened (fd ∷ []));
  has_socket = λ h. (fd, refl);
}

bind_local-IsConnected :
    (calls : Calls) (fd : ℕ) (c : DatagramClient) (fx : Effects)
    → IsConnected c fx (bind_local calls (record c { fd = some fd }) (open_socket fd fx))
bind_local-IsConnected calls fd c fx = elim (Bool-cases (leb path_size (length calls.local_path))) [
  | inl long ↦ rw long (opened-IsConnected _ fd _ _ c fx)
  | inr fits ↦ rw fits (after_bind calls.bind)
]
  where
    after_bind :
        (b : Option Errno)
        → IsConnected c fx (
            bound_local calls b
              (record c { fd = some fd; unix_local_path = take (path_size - 1) calls.local_path })
              (record fx {
                opened = fx.opened ++ fd ∷ [];
                unlinked = fx.unlinked ++ take (path_size - 1) calls.local_path ∷ [];
              }))
    after_bind none = opened-IsConnected _ fd _ _ c fx
    after_bind (some e) = opened-IsConnected _ fd _ _ c fx

unix-IsConnected :
    (calls : Calls) (path : Bytes) (c : DatagramClient) (fx : Effects)
    → c.fd ≡ none
    → IsConnected c fx (unix_upstream calls path c fx)
unix-IsConnected calls path c fx no_fd = elim (Bool-cases (is_nil path)) [
  | inl empty ↦ rw empty (failed-IsConnected _ c fx no_fd)
  | inr named ↦ elim (Bool-cases (leb path_size (length path))) [
    | inl long ↦ rw (named, long) (failed-IsConnected _ c fx no_fd)
    | inr fits ↦ rw (named, fits) (with_socket calls.socket)
  ]
]
  where
    with_socket : (s : Result ℕ) → IsConnected c fx (unix_socket calls s c fx)
    with_socket (err e) = failed-IsConnected e c fx no_fd
    with_socket (ok fd) = bind_local-IsConnected calls fd c fx

connect-IsConnected :
    (calls : Calls) (upstream : Endpoint) (c : DatagramClient) (fx : Effects)
    → c.fd ≡ none
    → IsConnected c fx (connect_datagram_upstream calls upstream c fx)
unfolding connect_datagram_upstream connect_kind
connect-IsConnected calls upstream c fx no_fd = by_kind upstream.kind
  where
    by_kind : (k : EndpointKind) → IsConnected c fx (connect_kind calls k upstream c fx)
    by_kind inet = inet-IsConnected calls c fx no_fd
    by_kind inet6 = inet-IsConnected calls c fx no_fd
    by_kind unix_dgram_kind = unix-IsConnected calls upstream.path c fx no_fd
    by_kind unix_kind = failed-IsConnected _ c fx no_fd
    by_kind file_kind = failed-IsConnected _ c fx no_fd
    by_kind builtin_kind = failed-IsConnected _ c fx no_fd

-- What create_datagram_client does to the table: a new client at its head, which listens on a socket
-- of its own, or no new client and no socket that stays open.
abbrev pub Created : Bytes → ℕ → Table → Option DatagramClient × Table → Type 0
Created addr now t (none, after) = (after.clients ≡ t.clients) × Balanced t.effects after.effects []
Created addr now t (some c, after) =
    (after.clients ≡ c ∷ t.clients)
    × (c.client_addr ≡ addr)
    × (c.last_seen ≡ now)
    × (c.ev ≡ true)
    × ((fd : ℕ) × (c.fd ≡ some fd))
    × Balanced t.effects after.effects (socket_of c.fd)

free-Balanced :
    (before fx : Effects) (c : DatagramClient)
    → Balanced before fx (socket_of c.fd)
    → Balanced before (free_datagram_client c fx) []
unfolding free_datagram_client
free-Balanced before fx c bal a = after_unlink c.fd (bal a)
  where
    after_unlink :
        (s : Socket)
        → count a fx.opened + count a before.closed
          ≡ count a before.opened + count a fx.closed + count a (socket_of s)
        → count a (unlink_local c.unix_local_path (close_socket s fx)).opened
            + count a before.closed
          ≡ count a before.opened
            + count a (unlink_local c.unix_local_path (close_socket s fx)).closed
            + 0
    after_unlink none h = elim (Bool-cases (is_nil c.unix_local_path)) [
      | inl empty ↦ rw empty (omega (arith, h))
      | inr path ↦ rw path (omega (arith, h))
    ]
    after_unlink (some fd) h =
        let more = count-append a fx.closed (fd ∷ []) in
        elim (Bool-cases (is_nil c.unix_local_path)) [
          | inl empty ↦ rw empty (omega (arith, h, more))
          | inr path ↦ rw path (omega (arith, h, more))
        ]

give_up-Created :
    (addr : Bytes) (now : ℕ) (t : Table) (c : DatagramClient) (fx : Effects)
    → Balanced t.effects fx (socket_of c.fd)
    → Created addr now t (give_up c t fx)
give_up-Created addr now t c fx bal = (refl, free-Balanced t.effects fx c bal)

listen-Created :
    (calls : Calls) (addr : Bytes) (now : ℕ) (t : Table) (c : DatagramClient) (fx : Effects)
    → c.client_addr ≡ addr
    → c.last_seen ≡ now
    → (fd : ℕ) × (c.fd ≡ some fd)
    → Balanced t.effects fx (socket_of c.fd)
    → Created addr now t (listen_for_replies calls c t fx)
listen-Created calls addr now t c fx at seen has bal =
    elim (Bool-cases (not calls.nonblocking || not calls.event_new)) [
      | inl failed ↦ rw failed (give_up-Created addr now t c fx bal)
      | inr ready ↦ elim (Bool-cases calls.event_add) [
        | inl added ↦ rw (ready, added) (refl, at, seen, refl, has, bal)
        | inr failed ↦
            rw (ready, failed) (give_up-Created addr now t (record c { ev = true }) fx bal)
      ]
    ]

pub create-Created :
    (calls : Calls) (upstream : Endpoint) (addr : Bytes) (now : ℕ) (t : Table)
    → Created addr now t (create_datagram_client calls upstream addr now t)
unfolding create_datagram_client
create-Created calls upstream addr now t = with_pointer calls.calloc
  where
    finished :
        (id : ℕ) (rc : Option Errno) (r : Connected)
        → r.rc ≡ rc
        → IsConnected (new_client id addr now) t.effects r
        → Created addr now t (add_client calls t r.client r.effects rc)
    finished id (some e) r h w = give_up-Created addr now t r.client r.effects w.balanced
    finished id none r h w =
        listen-Created calls addr now t r.client r.effects w.same_addr w.same_seen (w.has_socket h)
          w.balanced

    with_pointer : (p : Option ℕ) → Created addr now t (with_memory calls upstream addr now t p)
    with_pointer none = (refl, λ a. omega arith)
    with_pointer (some id) =
        finished id _ (connect_datagram_upstream calls upstream (new_client id addr now) t.effects)
          refl (connect-IsConnected calls upstream (new_client id addr now) t.effects refl)
