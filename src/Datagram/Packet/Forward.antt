-- ===== src/Datagram/Packet/Forward.antt =====
-- The ways through datagram_route_handle_packet of src/datagram_listener.c.
use tinyproxy.Base.{
  ℕ, ◌≤◌, ◌≡◌, refl, sym, subst, ◌⊎◌, inl, inr, false, Option, none, some, Bytes, length, Errno,
  enomem,
}
use tinyproxy.Datagram.{DatagramClient, Table, ss_family, af_inet}
use tinyproxy.Datagram.Client.{Calls, get_or_create_client}
use tinyproxy.Datagram.Client.Addresses.{Found, get_or_create_client-Found}
use tinyproxy.Datagram.Packet.{
  Outgoing, dropped, DatagramRouteCtx, is_builtin_kind, send_from,
  send_datagram_payload_to_upstream, datagram_route_handle_packet,
}
use tinyproxy.Datagram.Packet.Announce.{Forwarded, send_datagram_payload_to_upstream-Forwarded}

-- The packet is forwarded on the socket of the client that the table has for the address from now
-- on, or no client could be created and nothing is sent.
abbrev pub Handled : Option Errno → ℕ → DatagramRouteCtx → Bytes → Bytes → Outgoing × Table → Type 0
Handled sent now ctx addr payload (s, t) =
    ((s ≡ dropped enomem) × Found addr now ctx.table (none, t))
    ⊎ ((c : DatagramClient) × Found addr now ctx.table (some c, t)
        × Forwarded sent c.fd ctx.route.opts.proxy_v2 ctx.local_addr addr payload s)

-- A packet that comes to a route of datagrams whose upstream is no builtin is forwarded, as it is or
-- behind a header that a reader of PROXY headers reads as the addresses of the client and of the
-- listener, by a send on the socket of the one client that the table has for the packet's address,
-- seen now; other addresses find the clients that they found before. Otherwise nothing is sent, and the error says why: no client could be
-- created, and the clients are as they were; a route with PROXY headers has an address that is not of
-- IPv4; or its packet has more than 65507 bytes. An address of IPv4 has at least 16 bytes.
pub datagram_route_handle_packet-Handled :
    (inet_ntop : ℕ → Bytes → Option Bytes) (calls : Calls) (sent : Option Errno) (now : ℕ)
    (ctx : DatagramRouteCtx) (peer_addr payload : Bytes)
    → is_builtin_kind ctx.route.upstream_ep.kind ≡ false
    → (ss_family ctx.local_addr ≡ af_inet → 16 ≤ length ctx.local_addr)
    → (ss_family peer_addr ≡ af_inet → 16 ≤ length peer_addr)
    → Handled sent now ctx peer_addr payload
        (datagram_route_handle_packet inet_ntop calls sent now ctx peer_addr payload)
unfolding datagram_route_handle_packet
datagram_route_handle_packet-Handled inet_ntop calls sent now ctx peer_addr payload remote
      local_size peer_size =
    rw remote (
      sent_from (get_or_create_client calls ctx.route.upstream_ep peer_addr now ctx.table)
        (get_or_create_client-Found calls ctx.route.upstream_ep peer_addr now ctx.table))
  where
    sent_from :
        (r : Option DatagramClient × Table)
        → Found peer_addr now ctx.table r
        → Handled sent now ctx peer_addr payload (send_from sent ctx payload r)
    sent_from (none, t) found = inl (refl, found)
    sent_from (some c, t) found = inr (
      c,
      found,
      subst
          (λ a. Forwarded sent c.fd ctx.route.opts.proxy_v2 ctx.local_addr a payload (
            send_datagram_payload_to_upstream sent ctx.route.opts.proxy_v2 ctx.local_addr c
              payload))
          found.0
          (send_datagram_payload_to_upstream-Forwarded sent c ctx.local_addr payload local_size
            (λ family.
              subst (λ a. 16 ≤ length a) (sym found.0)
                (peer_size (subst (λ a. ss_family a ≡ af_inet) found.0 family)))
            ctx.route.opts.proxy_v2),
    )
