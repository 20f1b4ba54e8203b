-- ===== src/Datagram/Client/Sockets.antt =====
-- The sockets of src/datagram_client.c over any sequence of packets and of clean-ups.
use tinyproxy.Base.{
  ℕ, ◌+◌, ◌≡◌, refl, ap, inl, inr, Bool, true, not, List, [], ◌∷◌, ◌++◌, Option, none, some,
  Bool-cases, Bytes, filter, count, count-append, arith,
}
use tinyproxy.Endpoint.{Endpoint}
use tinyproxy.Datagram.{DatagramClient, Effects, Table, sockaddr_equal}
use tinyproxy.Datagram.Client.{
  cleanup_idle_datagram_clients, find_datagram_client, Calls, see, or_create, get_or_create_client,
}
use tinyproxy.Datagram.Client.Create.{socket_of, Balanced, Created, create-Created}
use tinyproxy.Datagram.Client.Addresses.{
  sockets_of, seen_within, is_expired, cleanup_idle_datagram_clients-Filtered,
}

-- No two clients with one address, and each listens on a socket.
abbrev pub Sound : List DatagramClient → Type 0
Sound [] = Unit {0}
Sound (c ∷ cs) =
    (find_datagram_client cs c.client_addr ≡ none)
    × (c.ev ≡ true)
    × ((fd : ℕ) × (c.fd ≡ some fd))
    × Sound cs

-- The sockets that were opened and not closed since `before` are those of the clients and others.
abbrev pub IsSound : Effects → List ℕ → Table → Type 0
IsSound before others t =
    Sound t.clients × Balanced before t.effects (others ++ sockets_of t.clients)

-- What workers do to the clients of a route, under its lock: one looks a client up or creates it for
-- a packet, or removes the idle ones.
pub data TableStep (upstream : Endpoint) : Table → Table → Type 0 where
  packet :
      (calls : Calls) (addr : Bytes) (now : ℕ) (t : Table)
      → TableStep upstream t (get_or_create_client calls upstream addr now t).1
  clean_up :
      (now idle_timeout : ℕ) (t : Table)
      → TableStep upstream t (cleanup_idle_datagram_clients now idle_timeout t)

pub data Reached (upstream : Endpoint) (start : Table) : Table → Type 0 where
  at_start : Reached upstream start start
  after :
      {t u : Table} → Reached upstream start t → TableStep upstream t u → Reached upstream start u

see-missing :
    (cs : List DatagramClient) (addr other : Bytes) (now : ℕ)
    → find_datagram_client cs other ≡ none
    → find_datagram_client (see addr now cs) other ≡ none
unfolding find_datagram_client see
see-missing [] addr other now h = refl
see-missing (d ∷ cs) addr other now h = elim (Bool-cases (sockaddr_equal d.client_addr other)) [
  | inl hit ↦ ground arith
  | inr miss ↦
      let below : find_datagram_client cs other ≡ none = ground arith in
      elim (Bool-cases (sockaddr_equal d.client_addr addr)) [
        | inl e ↦ rw (e, miss) below
        | inr e ↦ rw (e, miss) (see-missing cs addr other now below)
      ]
]

see-Sound : (cs : List DatagramClient) (addr : Bytes) (now : ℕ) → Sound cs → Sound (see addr now cs)
unfolding see
see-Sound [] addr now s = s
see-Sound (d ∷ cs) addr now (alone, ev, fd, s) =
    elim (Bool-cases (sockaddr_equal d.client_addr addr)) [
      | inl e ↦ rw e (alone, ev, fd, s)
      | inr e ↦ rw e (see-missing cs addr d.client_addr now alone, ev, fd, see-Sound cs addr now s)
    ]

see-sockets :
    (cs : List DatagramClient) (addr : Bytes) (now : ℕ)
    → sockets_of (see addr now cs) ≡ sockets_of cs
unfolding see
see-sockets [] addr now = refl
see-sockets (d ∷ cs) addr now = elim (Bool-cases (sockaddr_equal d.client_addr addr)) [
  | inl e ↦ rw e refl
  | inr e ↦ rw e (ap (◌++◌ (socket_of d.fd)) (see-sockets cs addr now))
]

filter-missing :
    (p : DatagramClient → Bool) (cs : List DatagramClient) (addr : Bytes)
    → find_datagram_client cs addr ≡ none
    → find_datagram_client (filter p cs) addr ≡ none
unfolding find_datagram_client
filter-missing p [] addr h = refl
filter-missing p (d ∷ cs) addr h = elim (Bool-cases (sockaddr_equal d.client_addr addr)) [
  | inl hit ↦ ground arith
  | inr miss ↦
      let below : find_datagram_client cs addr ≡ none = ground arith in
      elim (Bool-cases (p d)) [
        | inl kept ↦ rw (kept, miss) (filter-missing p cs addr below)
        | inr dropped ↦ rw dropped (filter-missing p cs addr below)
      ]
]

filter-Sound :
    (p : DatagramClient → Bool) (cs : List DatagramClient) → Sound cs → Sound (filter p cs)
filter-Sound p [] s = s
filter-Sound p (d ∷ cs) (alone, ev, fd, s) = elim (Bool-cases (p d)) [
  | inl kept ↦ rw kept (filter-missing p cs d.client_addr alone, ev, fd, filter-Sound p cs s)
  | inr dropped ↦ rw dropped (filter-Sound p cs s)
]

-- The kept and the removed clients have all the sockets.
count-split :
    (p : DatagramClient → Bool) (a : ℕ) (cs : List DatagramClient)
    → count a (sockets_of cs)
      ≡ count a (sockets_of (filter p cs)) + count a (sockets_of (filter (λ c. not (p c)) cs))
count-split p a [] = refl
count-split p a (d ∷ cs) =
    let ih = count-split p a cs in
    let all = count-append a (socket_of d.fd) (sockets_of cs) in
    elim (Bool-cases (p d)) [
      | inl kept ↦
          rw kept
            (omega (arith, ih, all, count-append a (socket_of d.fd) (sockets_of (filter p cs))))
      | inr dropped ↦ rw dropped (
          omega (
            arith,
            ih,
            all,
            count-append a (socket_of d.fd) (sockets_of (filter (λ c. not (p c)) cs)),
          ))
    ]

module _ (before : Effects) (others : List ℕ) where
  cleanup-IsSound :
      (now idle_timeout : ℕ) (t : Table)
      → IsSound before others t
      → IsSound before others (cleanup_idle_datagram_clients now idle_timeout t)
  cleanup-IsSound now idle_timeout t (sound, bal) =
      rw left (filter-Sound (seen_within now idle_timeout) t.clients sound, balanced)
    where
      done : Table
      done = cleanup_idle_datagram_clients now idle_timeout t

      fresh : List DatagramClient
      fresh = filter (seen_within now idle_timeout) t.clients

      left : done.clients ≡ fresh
      left = (cleanup_idle_datagram_clients-Filtered now idle_timeout t).0

      expired : List ℕ
      expired = sockets_of (filter (is_expired now idle_timeout) t.clients)

      balanced : Balanced before done.effects (others ++ sockets_of fresh)
      balanced a =
          let (_, closed, _, opened) = cleanup_idle_datagram_clients-Filtered now idle_timeout t in
          rw (closed, opened)
            (omega (
              arith,
              bal a,
              count-append a t.effects.closed expired,
              count-append a others (sockets_of fresh),
              count-append a others (sockets_of t.clients),
              count-split (seen_within now idle_timeout) a t.clients,
            ))

  Created-IsSound :
      (addr : Bytes) (now : ℕ) (t : Table) (r : Option DatagramClient × Table)
      → find_datagram_client t.clients addr ≡ none
      → Created addr now t r
      → IsSound before others t
      → IsSound before others r.1
  Created-IsSound addr now t (none, u) missing (same, more) (sound, bal) =
      rw same (sound, λ a. omega (arith, bal a, more a))
  Created-IsSound addr now t (some c, u) missing (head, at, _, ev, fd, more) (sound, bal) =
      rw head (
        (rw at missing, ev, fd, sound),
        λ a. omega (
          arith,
          bal a,
          more a,
          count-append a (socket_of c.fd) (sockets_of t.clients),
          count-append a others (sockets_of t.clients),
          count-append a others (sockets_of (c ∷ t.clients)),
        ),
      )

  get_or_create-IsSound :
      (calls : Calls) (upstream : Endpoint) (addr : Bytes) (now : ℕ) (t : Table)
      → IsSound before others t
      → IsSound before others (get_or_create_client calls upstream addr now t).1
  unfolding get_or_create_client
  get_or_create-IsSound calls upstream addr now t s =
      looked_up (find_datagram_client t.clients addr) refl
    where
      looked_up :
          (o : Option DatagramClient)
          → find_datagram_client t.clients addr ≡ o
          → IsSound before others (or_create calls upstream addr now t o).1
      looked_up none missing =
          Created-IsSound addr now t _ missing (create-Created calls upstream addr now t) s
      looked_up (some c) hit =
          (see-Sound t.clients addr now s.0, λ a. rw (see-sockets t.clients addr now) (s.1 a))

  step-IsSound :
      (upstream : Endpoint) (t u : Table)
      → TableStep upstream t u
      → IsSound before others t
      → IsSound before others u
  step-IsSound upstream _ _ (packet calls addr now t) s =
      get_or_create-IsSound calls upstream addr now t s
  step-IsSound upstream _ _ (clean_up now idle_timeout t) s = cleanup-IsSound now idle_timeout t s

  pub Reached-IsSound :
      (upstream : Endpoint) (start t : Table)
      → IsSound before others start
      → Reached upstream start t
      → IsSound before others t
  Reached-IsSound upstream start _ s at_start = s
  Reached-IsSound upstream start u s (after {t} earlier step) =
      step-IsSound upstream t u step (Reached-IsSound upstream start t s earlier)
