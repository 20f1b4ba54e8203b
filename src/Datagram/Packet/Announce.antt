-- ===== src/Datagram/Packet/Announce.antt =====
-- The packets of send_datagram_payload_to_upstream of src/datagram_client.c.
use tinyproxy.Base.{
  ◌+◌, ◌≤◌, ◌<◌, ◌==◌, ==_iff, ◌≡◌, ◌≢◌, refl, ◌⊎◌, inl, inr, Bool, true, false, Bool-cases, ◌++◌,
  Option, some, ltb, Bytes, length, length-append, arith, Errno, eafnosupport, emsgsize, Result, ok,
  err,
}
use tinyproxy.Proxy.{Sockaddr, sockaddr_in, sock_dgram, proxy_v2_build}
use tinyproxy.Proxy.Decoder.{read_proxy_v2, proxy_v2_build-read}
use tinyproxy.Proxy.Sizes.{Returns, proxy_v2_build-Returns}
use tinyproxy.Worker.{Socket}
use tinyproxy.Datagram.{DatagramClient, ss_family, af_inet, storage_bytes}
use tinyproxy.Datagram.Packet.{
  Outgoing, dropped, udp_max_packet, attempted, send_with_header, send_datagram_payload_to_upstream,
}

-- The address and the port in a `struct sockaddr_in`.
abbrev pub ipv4_of : Bytes → Sockaddr
ipv4_of addr = sockaddr_in (storage_bytes 4 4 addr) (storage_bytes 2 2 addr)

-- What is given to the socket `fd` is the client's packet; or, where the route announces its clients, it
-- is no longer than a packet may be, and a reader of PROXY protocol headers reads the client's address, the
-- listener's address and the client's packet. Otherwise nothing is sent, and the error says why.
abbrev pub Forwarded : Option Errno → Socket → Bool → Bytes → Bytes → Bytes → Outgoing → Type 0
Forwarded sent fd proxy_v2 local_addr client_addr payload r =
    ((proxy_v2 ≡ false) × (r ≡ attempted sent fd payload))
    ⊎ (((proxy_v2 ≡ true)
          × ((ss_family client_addr ≢ af_inet) ⊎ (ss_family local_addr ≢ af_inet))
          × (r ≡ dropped eafnosupport))
        ⊎ (((proxy_v2 ≡ true) × (65507 < length payload) × (r ≡ dropped emsgsize))
            ⊎ ((proxy_v2 ≡ true)
                × ((packet : Bytes) × (r ≡ attempted sent fd packet)
                    × (length packet ≡ 28 + length payload)
                    × (length packet ≤ 65535)
                    × (read_proxy_v2 packet
                        ≡ some (
                          record {
                            src = ipv4_of client_addr;
                            dst = ipv4_of local_addr;
                            sock_type = sock_dgram;
                          },
                          payload,
                        ))))))

module _ (sent : Option Errno) (c : DatagramClient) (local_addr payload : Bytes)
    (local_size : ss_family local_addr ≡ af_inet → 16 ≤ length local_addr)
    (client_size : ss_family c.client_addr ≡ af_inet → 16 ≤ length c.client_addr) where
  header-Forwarded :
      (ss_family c.client_addr ≡ af_inet)
      → (ss_family local_addr ≡ af_inet)
      → (h : Result Bytes)
      → proxy_v2_build 256
          (ipv4_of c.client_addr)
          (length c.client_addr)
          (ipv4_of local_addr)
          (length local_addr)
          sock_dgram
        ≡ h
      → Returns 256
          (ipv4_of c.client_addr)
          (length c.client_addr)
          (ipv4_of local_addr)
          (length local_addr)
          sock_dgram
          h
      → Forwarded sent c.fd true local_addr c.client_addr payload
          (send_with_header sent c.fd payload h)
  header-Forwarded k l (err e) h (inl (_, inl x)) = cc
  header-Forwarded k l (err e) h (inl (_, inr x)) = absurd x
  header-Forwarded k l (err e) h (inr (inl (_, x))) = absurd x
  header-Forwarded k l (err e) h (inr (inr (inl (_, inl x)))) =
      absurd (omega (arith, client_size k))
  header-Forwarded k l (err e) h (inr (inr (inl (_, inr x)))) = absurd (omega (arith, local_size l))
  header-Forwarded k l (err e) h (inr (inr (inr (_, x)))) = absurd (omega arith)
  header-Forwarded k l (ok hdr) h (size, _, _, _) =
      elim (Bool-cases (ltb udp_max_packet (length hdr + length payload))) [
        | inl long ↦ rw long (inr (inr (inl (refl, ground arith, refl))))
        | inr fits ↦
            let total : length (hdr ++ payload) ≡ 28 + length payload =
              omega (arith, length-append hdr payload) in
            rw fits (
              inr (
                inr (
                  inr (
                    refl,
                    (
                      hdr ++ payload,
                      refl,
                      total,
                      ground arith,
                      proxy_v2_build-read 256 (ipv4_of c.client_addr) (length c.client_addr)
                          (ipv4_of local_addr) (length local_addr) sock_dgram hdr payload
                          (refl, refl, refl, refl) h,
                    ),
                  ))))
      ]

  proxied-Forwarded :
      Forwarded sent c.fd true local_addr c.client_addr payload
        (send_datagram_payload_to_upstream sent true local_addr c payload)
  unfolding send_datagram_payload_to_upstream
  proxied-Forwarded = elim (Bool-cases (ss_family c.client_addr == af_inet)) [
    | inr other ↦ rw other (inr (inl (refl, inl (λ e. absurd (ground arith)), refl)))
    | inl ipv4 ↦ elim (Bool-cases (ss_family local_addr == af_inet)) [
      | inr other ↦ rw (ipv4, other) (inr (inl (refl, inr (λ e. absurd (ground arith)), refl)))
      | inl same ↦
          rw (ipv4, same)
            (header-Forwarded ((==_iff _ _).0 ipv4) ((==_iff _ _).0 same) _ refl (
              proxy_v2_build-Returns 256 (ipv4_of c.client_addr) (length c.client_addr)
                (ipv4_of local_addr) (length local_addr) sock_dgram (refl, refl, refl, refl)))
    ]
  ]

  pub send_datagram_payload_to_upstream-Forwarded :
      (proxy_v2 : Bool)
      → Forwarded sent c.fd proxy_v2 local_addr c.client_addr payload
          (send_datagram_payload_to_upstream sent proxy_v2 local_addr c payload)
  unfolding send_datagram_payload_to_upstream
  send_datagram_payload_to_upstream-Forwarded true = proxied-Forwarded
  send_datagram_payload_to_upstream-Forwarded false = inl (refl, refl)
