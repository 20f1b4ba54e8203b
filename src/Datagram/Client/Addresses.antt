-- ===== src/Datagram/Client/Addresses.antt =====
-- The clients of src/datagram_client.c as a table from addresses to clients.
use tinyproxy.Base.{
  ℕ, ◌+◌, ◌≡◌, ◌≢◌, ◌↔◌, refl, ap, sym, ◌∙◌, inl, inr, Bool, true, false, not, List, [], ◌∷◌, ◌++◌,
  append_assoc, append-nil, Option, none, some, leb, if◌then◌else◌, Bool-cases, Bytes, filter,
  str_eq_iff, arith,
}
use tinyproxy.Endpoint.{Endpoint}
use tinyproxy.Datagram.{DatagramClient, Effects, Table, sockaddr_equal}
use tinyproxy.Datagram.Client.{
  free_datagram_client, is_fresh, cleanup_from, cleanup_idle_datagram_clients, find_datagram_client,
  Calls, see, or_create, get_or_create_client, close_socket,
}
use tinyproxy.Datagram.Client.Create.{socket_of, Created, create-Created}
use tinyproxy.Text.{is_nil}
use tinyproxy.Worker.{Socket}

-- Two addresses are equal for the program exactly if they have the same bytes.
pub sockaddr_equal_iff : (a b : Bytes) → (sockaddr_equal a b ≡ true) ↔ (a ≡ b)
sockaddr_equal_iff a b = (forth, back)
  where
    forth : sockaddr_equal a b ≡ true → a ≡ b
    forth h = (str_eq_iff a b).0 (ground arith)

    back : a ≡ b → sockaddr_equal a b ≡ true
    back e = rw e (ground (arith, str_eq_iff b b))

not_equal : (a b : Bytes) → a ≢ b → sockaddr_equal a b ≡ false
not_equal a b h = elim (Bool-cases (sockaddr_equal a b)) [
  | inl e ↦ absurd (h ((sockaddr_equal_iff a b).0 e))
  | inr e ↦ e
]

equal_self : (a : Bytes) → sockaddr_equal a a ≡ true
equal_self a = (sockaddr_equal_iff a a).1 refl

find-addr :
    (cs : List DatagramClient) (addr : Bytes) (c : DatagramClient)
    → find_datagram_client cs addr ≡ some c
    → c.client_addr ≡ addr
unfolding find_datagram_client
find-addr [] addr c h = cc
find-addr (d ∷ cs) addr c h = elim (Bool-cases (sockaddr_equal d.client_addr addr)) [
  | inl e ↦
      let same : d ≡ c = ground arith in
      ap (λ z. z.client_addr) (sym same) ∙ (sockaddr_equal_iff d.client_addr addr).0 e
  | inr e ↦
      let later : find_datagram_client cs addr ≡ some c = ground arith in find-addr cs addr c later
]

find-see :
    (cs : List DatagramClient) (addr : Bytes) (now : ℕ) (c : DatagramClient)
    → find_datagram_client cs addr ≡ some c
    → find_datagram_client (see addr now cs) addr ≡ some (record c { last_seen = now })
unfolding find_datagram_client see
find-see [] addr now c h = cc
find-see (d ∷ cs) addr now c h = elim (Bool-cases (sockaddr_equal d.client_addr addr)) [
  | inl e ↦
      let same : d ≡ c = ground arith in
      rw (e, e) (ap (λ (z : DatagramClient). some (record z { last_seen = now })) same)
  | inr e ↦
      let later : find_datagram_client cs addr ≡ some c = ground arith in
      rw (e, e) (find-see cs addr now c later)
]

find-see-other :
    (cs : List DatagramClient) (addr other : Bytes) (now : ℕ)
    → other ≢ addr
    → find_datagram_client (see addr now cs) other ≡ find_datagram_client cs other
unfolding find_datagram_client see
find-see-other [] addr other now h = refl
find-see-other (d ∷ cs) addr other now h = elim (Bool-cases (sockaddr_equal d.client_addr addr)) [
  | inl e ↦
      let at : d.client_addr ≡ addr = (sockaddr_equal_iff d.client_addr addr).0 e in
      let skip : sockaddr_equal d.client_addr other ≡ false = not_equal _ _ (λ k. h (sym k ∙ at)) in
      rw (e, skip) refl
  | inr e ↦ rw e (
      ap (λ z. if sockaddr_equal d.client_addr other then some d else z)
        (find-see-other cs addr other now h))
]

-- The client for `addr`, seen at `now`, is found from now on; or there was none, none could be
-- created, and the clients stay as they were. Other addresses find what they found before.
abbrev pub Found : Bytes → ℕ → Table → Option DatagramClient × Table → Type 0
Found addr now t (none, after) =
    (find_datagram_client t.clients addr ≡ none) × (after.clients ≡ t.clients)
Found addr now t (some c, after) =
    (c.client_addr ≡ addr)
    × (c.last_seen ≡ now)
    × (find_datagram_client after.clients addr ≡ some c)
    × ((other : Bytes)
        → other ≢ addr
        → find_datagram_client after.clients other ≡ find_datagram_client t.clients other)

Created-Found :
    (addr : Bytes) (now : ℕ) (t : Table) (r : Option DatagramClient × Table)
    → find_datagram_client t.clients addr ≡ none
    → Created addr now t r
    → Found addr now t r
unfolding find_datagram_client
Created-Found addr now t (none, after) missing (same, _) = (missing, same)
Created-Found addr now t (some c, after) missing (head, at, seen, _, _, _) =
    let hit : sockaddr_equal c.client_addr addr ≡ true =
      (sockaddr_equal_iff c.client_addr addr).1 at in
    (
      at,
      seen,
      rw (head, hit) refl,
      λ other h.
          let miss : sockaddr_equal c.client_addr other ≡ false =
            not_equal _ _ (λ k. h (sym k ∙ at)) in
          rw (head, miss) refl,
    )

-- The client that datagram_route_get_or_create_client gives for an address is the one for this
-- address, seen now, and the one that the next lookup finds, while every other address finds what it
-- found before; or there was none, none could be created, and the clients stay as they were.
pub get_or_create_client-Found :
    (calls : Calls) (upstream : Endpoint) (addr : Bytes) (now : ℕ) (t : Table)
    → Found addr now t (get_or_create_client calls upstream addr now t)
unfolding get_or_create_client
get_or_create_client-Found calls upstream addr now t =
    looked_up (find_datagram_client t.clients addr) refl
  where
    looked_up :
        (o : Option DatagramClient)
        → find_datagram_client t.clients addr ≡ o
        → Found addr now t (or_create calls upstream addr now t o)
    looked_up none missing =
        Created-Found addr now t _ missing (create-Created calls upstream addr now t)
    looked_up (some c) hit = (
      find-addr t.clients addr c hit,
      refl,
      find-see t.clients addr now c hit,
      λ other h. find-see-other t.clients addr other now h,
    )

-- The sockets, and the pointers, of clients.
abbrev pub sockets_of : List DatagramClient → List ℕ
sockets_of [] = []
sockets_of (c ∷ cs) = socket_of c.fd ++ sockets_of cs

abbrev pub ids_of : List DatagramClient → List ℕ
ids_of [] = []
ids_of (c ∷ cs) = c.id ∷ ids_of cs

pub free-closed :
    (c : DatagramClient) (fx : Effects)
    → (free_datagram_client c fx).closed ≡ fx.closed ++ socket_of c.fd
unfolding free_datagram_client
free-closed c fx = elim (Bool-cases (is_nil c.unix_local_path)) [
  | inl empty ↦ rw empty (by_socket c.fd)
  | inr path ↦ rw path (by_socket c.fd)
]
  where
    by_socket : (s : Socket) → (close_socket s fx).closed ≡ fx.closed ++ socket_of s
    by_socket none = sym (append-nil fx.closed)
    by_socket (some fd) = refl

pub free-freed :
    (c : DatagramClient) (fx : Effects) → (free_datagram_client c fx).freed ≡ fx.freed ++ c.id ∷ []
unfolding free_datagram_client
free-freed c fx = elim (Bool-cases (is_nil c.unix_local_path)) [
  | inl empty ↦ rw empty (by_socket c.fd)
  | inr path ↦ rw path (by_socket c.fd)
]
  where
    by_socket : (s : Socket) → (close_socket s fx).freed ++ c.id ∷ [] ≡ fx.freed ++ c.id ∷ []
    by_socket none = refl
    by_socket (some fd) = refl

pub free-opened :
    (c : DatagramClient) (fx : Effects) → (free_datagram_client c fx).opened ≡ fx.opened
unfolding free_datagram_client
free-opened c fx = elim (Bool-cases (is_nil c.unix_local_path)) [
  | inl empty ↦ rw empty (by_socket c.fd)
  | inr path ↦ rw path (by_socket c.fd)
]
  where
    by_socket : (s : Socket) → (close_socket s fx).opened ≡ fx.opened
    by_socket none = refl
    by_socket (some fd) = refl

-- The client was seen no longer than `idle_timeout` before `now`.
abbrev pub seen_within : ℕ → ℕ → DatagramClient → Bool
seen_within now idle_timeout c = leb now (c.last_seen + idle_timeout)

abbrev pub is_expired : ℕ → ℕ → DatagramClient → Bool
is_expired now idle_timeout c = not (seen_within now idle_timeout c)

is_fresh-seen_within :
    (now idle_timeout : ℕ) (c : DatagramClient)
    → is_fresh now idle_timeout c ≡ seen_within now idle_timeout c
is_fresh-seen_within now idle_timeout c = elim (Bool-cases (seen_within now idle_timeout c)) [
  | inl seen ↦ ground arith
  | inr missed ↦ ground arith
]

-- The clients left by a walk, the sockets closed and the clients freed.
abbrev pub Filtered : ℕ → ℕ → List DatagramClient → Effects → Table → Type 0
Filtered now idle_timeout cs fx after =
    (after.clients ≡ filter (seen_within now idle_timeout) cs)
    × (after.effects.closed ≡ fx.closed ++ sockets_of (filter (is_expired now idle_timeout) cs))
    × (after.effects.freed ≡ fx.freed ++ ids_of (filter (is_expired now idle_timeout) cs))
    × (after.effects.opened ≡ fx.opened)

pub cleanup_from-Filtered :
    (now idle_timeout : ℕ) (cs : List DatagramClient) (fx : Effects)
    → Filtered now idle_timeout cs fx (cleanup_from now idle_timeout cs fx)
unfolding cleanup_from
cleanup_from-Filtered now idle_timeout [] fx =
    (refl, sym (append-nil fx.closed), sym (append-nil fx.freed), refl)
cleanup_from-Filtered now idle_timeout (c ∷ cs) fx =
    elim (Bool-cases (seen_within now idle_timeout c)) [
      | inl seen ↦
          let (left, closed, freed, opened) = cleanup_from-Filtered now idle_timeout cs fx in
          rw (is_fresh-seen_within now idle_timeout c, seen)
            (ap (◌∷◌ c) left, closed, freed, opened)
      | inr missed ↦
          let (left, closed, freed, opened) =
            cleanup_from-Filtered now idle_timeout cs (free_datagram_client c fx) in
          rw (is_fresh-seen_within now idle_timeout c, missed)
            (
              left,
              closed
                  ∙ ap (λ z. z ++ sockets_of (filter (is_expired now idle_timeout) cs))
                      (free-closed c fx)
                  ∙ append_assoc fx.closed (socket_of c.fd)
                      (sockets_of (filter (is_expired now idle_timeout) cs)),
              freed
                  ∙ ap (λ z. z ++ ids_of (filter (is_expired now idle_timeout) cs))
                      (free-freed c fx)
                  ∙ append_assoc fx.freed (c.id ∷ [])
                      (ids_of (filter (is_expired now idle_timeout) cs)),
              opened ∙ free-opened c fx,
            )
    ]

-- The clients left by a clean-up are those whose `last_seen` is no more than `idle_timeout`
-- seconds before `now`, in their order; the sockets of the others are closed, each other client is freed once, in order, and
-- no socket is opened.
pub cleanup_idle_datagram_clients-Filtered :
    (now idle_timeout : ℕ) (t : Table)
    → Filtered now idle_timeout t.clients t.effects
        (cleanup_idle_datagram_clients now idle_timeout t)
unfolding cleanup_idle_datagram_clients
cleanup_idle_datagram_clients-Filtered now idle_timeout t =
    cleanup_from-Filtered now idle_timeout t.clients t.effects
