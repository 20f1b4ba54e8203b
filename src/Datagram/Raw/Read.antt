-- ===== src/Datagram/Raw/Read.antt =====
-- A reader of UDP over IPv4, written from the protocols, for datagram_raw_send_udp_ipv4 of
-- src/datagram_raw.c.
use tinyproxy.Base.{
  ℕ, ◌+◌, ◌*◌, ◌/◌, ◌%◌, ◌≤◌, ◌<◌, ◌==◌, ==_iff, ◌≡◌, ◌≢◌, refl, ◌⊎◌, inl, inr, Bool, false, not,
  ◌&&◌, Bool-cases, Option-cases, [], ◌∷◌, Option, none, some, ltb, ltb→lt, if◌then◌else◌, Bytes,
  length, arith, einval, eafnosupport, emsgsize, enomem, Result, ok, err,
}
use tinyproxy.Worker.{Socket, socket_is_valid}
use tinyproxy.Endpoint.{Endpoint}
use tinyproxy.Proxy.{put_u16, sizeof_sockaddr_in}
use tinyproxy.Datagram.{ss_family, af_inet, storage_byte, storage_bytes}
use tinyproxy.Datagram.Raw.{
  SockaddrIn, or_invalid, is_inet, endpoint_to_sockaddr_in, raw_packet, Sending, refused, sent_all,
  send_packet, datagram_raw_send_udp_ipv4,
}

pub record UdpDatagram : Type 0 where
  pub src_addr : Bytes
  pub src_port : ℕ
  pub dst_addr : Bytes
  pub dst_port : ℕ
  pub payload : Bytes

abbrev pub read_u16 : ℕ → ℕ → ℕ
read_u16 hi lo = hi * 256 + lo

-- A header of IPv4 without options, of a packet that is no fragment and carries UDP, with the
-- lengths of the packet; then the header of UDP without a checksum. The checksum of the first
-- header is for the kernel that sends the packet.
unfoldable pub read_udp : Bytes → Option UdpDatagram
read_udp
      (vhl ∷ tos ∷ l1 ∷ l0 ∷ i1 ∷ i0 ∷ o1 ∷ o0 ∷ ttl ∷ proto ∷ s1 ∷ s0 ∷ a ∷ b ∷ c ∷ d ∷ e ∷ f ∷ g
        ∷ h ∷ p1 ∷ p0 ∷ q1 ∷ q0 ∷ u1 ∷ u0 ∷ k1 ∷ k0 ∷ payload) =
    if vhl == 0x45
      && (read_u16 o1 o0 == 0 && (ltb 0 ttl && proto == 17))
      && (read_u16 l1 l0 == 28 + length payload
          && (read_u16 u1 u0 == 8 + length payload && read_u16 k1 k0 == 0))
    then some (record {
      src_addr = a ∷ b ∷ c ∷ d ∷ [];
      src_port = read_u16 p1 p0;
      dst_addr = e ∷ f ∷ g ∷ h ∷ [];
      dst_port = read_u16 q1 q0;
      payload = payload;
    })
    else none
read_udp _ = none

-- A port that is in its two bytes.
abbrev pub peer_port : Bytes → ℕ
peer_port addr = read_u16 (storage_byte 2 addr) (storage_byte 3 addr)

packet-read :
    (addr : Bytes) (port : ℕ) (dst_addr payload : Bytes)
    → length addr ≡ 4
    → port < 65536
    → length payload ≤ 65507
    → (length (
          raw_packet
            (record { sin_addr = addr; sin_port = put_u16 port })
            (record {
              sin_addr = storage_bytes 4 4 dst_addr;
              sin_port = storage_bytes 2 2 dst_addr;
            })
            payload)
        ≡ 28 + length payload)
      × (read_udp (
            raw_packet
              (record { sin_addr = addr; sin_port = put_u16 port })
              (record {
                sin_addr = storage_bytes 4 4 dst_addr;
                sin_port = storage_bytes 2 2 dst_addr;
              })
              payload)
          ≡ some (record {
            src_addr = addr;
            src_port = port;
            dst_addr = storage_bytes 4 4 dst_addr;
            dst_port = peer_port dst_addr;
            payload = payload;
          }))
unfolding put_u16 read_udp
packet-read (a ∷ b ∷ c ∷ d ∷ []) port dst_addr payload four small short =
    let total : read_u16 ((28 + length payload) / 256 % 256) ((28 + length payload) % 256)
        ≡ 28 + length payload =
      omega arith in
    let udp : read_u16 ((8 + length payload) / 256 % 256) ((8 + length payload) % 256)
        ≡ 8 + length payload =
      omega arith in
    let same : read_u16 (port / 256 % 256) (port % 256) ≡ port = omega arith in
    (omega arith, rw (same, (==_iff _ _).1 total, (==_iff _ _).1 udp) refl)
packet-read [] port dst_addr payload four small short = absurd (omega arith)
packet-read (a ∷ []) port dst_addr payload four small short = absurd (omega arith)
packet-read (a ∷ b ∷ []) port dst_addr payload four small short = absurd (omega arith)
packet-read (a ∷ b ∷ c ∷ []) port dst_addr payload four small short = absurd (omega arith)
packet-read (a ∷ b ∷ c ∷ d ∷ e ∷ rest) port dst_addr payload four small short = absurd (omega arith)

sockaddr_in-cases :
    (inet_pton : Bytes → Option Bytes) (ep : Endpoint)
    → (endpoint_to_sockaddr_in inet_pton ep ≡ err einval)
      ⊎ ((addr : Bytes) × (inet_pton ep.host ≡ some addr)
          × (endpoint_to_sockaddr_in inet_pton ep
              ≡ ok (record { sin_addr = addr; sin_port = put_u16 ep.port })))
unfolding endpoint_to_sockaddr_in or_invalid
sockaddr_in-cases inet_pton ep = elim (Bool-cases (is_inet ep.kind)) [
  | inl ipv4 ↦ elim (Option-cases (inet_pton ep.host)) [
    | inl bad ↦ inl (rw (ipv4, bad) refl)
    | inr (addr, good) ↦ inr (addr, good, rw (ipv4, good) refl)
  ]
  | inr other ↦ inl (rw other refl)
]

-- What becomes of a call: nothing is sent for one of four reasons, or a packet of at most 65535
-- bytes that a receiver reads as what was meant.
abbrev pub Sends :
    (Bytes → Option Bytes) → Bool → Result ℕ → Socket → Endpoint → Bytes → Bytes → Sending → Type 0
Sends inet_pton alloc sendto raw_fd src_ep dst_addr payload r =
    ((r ≡ refused einval)
      × ((raw_fd ≡ none)
          ⊎ ((length dst_addr < 16) ⊎ (endpoint_to_sockaddr_in inet_pton src_ep ≡ err einval))))
    ⊎ (((r ≡ refused eafnosupport) × (ss_family dst_addr ≢ af_inet))
        ⊎ (((r ≡ refused emsgsize) × (65507 < length payload))
            ⊎ (((r ≡ refused enomem) × (alloc ≡ false))
                ⊎ ((addr : Bytes) × (packet : Bytes) × (inet_pton src_ep.host ≡ some addr)
                    × (r ≡ record { rc = sent_all (length packet) sendto; packet = some packet })
                    × (length packet ≤ 65535)
                    × (read_udp packet
                        ≡ some (record {
                          src_addr = addr;
                          src_port = src_ep.port;
                          dst_addr = storage_bytes 4 4 dst_addr;
                          dst_port = peer_port dst_addr;
                          payload = payload;
                        }))))))

module _ (inet_pton : Bytes → Option Bytes)
    (four_bytes : (host addr : Bytes) → inet_pton host ≡ some addr → length addr ≡ 4) (alloc : Bool)
    (sendto : Result ℕ) (raw_fd : Socket) (src_ep : Endpoint) (port_small : src_ep.port < 65536)
    (dst_addr payload : Bytes) where
  send_packet-Sends : Sends inet_pton alloc sendto raw_fd src_ep dst_addr payload (
      send_packet alloc sendto
        (record { sin_addr = storage_bytes 4 4 dst_addr; sin_port = storage_bytes 2 2 dst_addr })
        payload
        (endpoint_to_sockaddr_in inet_pton src_ep))
  send_packet-Sends = elim (sockaddr_in-cases inet_pton src_ep) [
    | inl bad ↦ rw bad (inl (refl, inr (inr refl)))
    | inr (addr, good, src) ↦ elim (Bool-cases (ltb 65507 (length payload))) [
      | inl long ↦ rw (src, long) (inr (inr (inl (refl, ltb→lt _ _ long))))
      | inr fits ↦ elim (Bool-cases alloc) [
        | inr failed ↦ rw (src, fits, failed) (inr (inr (inr (inl (refl, refl)))))
        | inl memory ↦
            let (size, reads) =
              packet-read addr src_ep.port dst_addr payload (four_bytes _ _ good) port_small
                (ground arith) in
            rw (src, fits, memory)
              (inr (inr (inr (inr (addr, _, good, rw size refl, rw size (ground arith), reads)))))
      ]
    ]
  ]

  -- A UDP packet over IPv4 that is sent with the upstream's address carries the upstream's address
  -- and port, the client's address and port, and the whole reply, in at most 65535 bytes. Otherwise
  -- nothing is sent, and the error says why: no raw socket, a peer's address that is too short, an
  -- upstream that is no IPv4 address, a peer of another family, a reply of more than 65507 bytes, or
  -- no memory. inet_pton gives 4 bytes, and ports are numbers of 16 bits.
  pub datagram_raw_send_udp_ipv4-Sends :
      Sends inet_pton alloc sendto raw_fd src_ep dst_addr payload
        (datagram_raw_send_udp_ipv4 inet_pton alloc sendto raw_fd src_ep dst_addr payload)
  unfolding datagram_raw_send_udp_ipv4
  datagram_raw_send_udp_ipv4-Sends = by_socket raw_fd refl
    where
      dst : SockaddrIn
      dst = record { sin_addr = storage_bytes 4 4 dst_addr; sin_port = storage_bytes 2 2 dst_addr }

      by_socket :
          (s : Socket)
          → raw_fd ≡ s
          → Sends inet_pton alloc sendto raw_fd src_ep dst_addr payload (
              if not (socket_is_valid s)
              then refused einval
              else if ltb (length dst_addr) sizeof_sockaddr_in
              then refused einval
              else if not (ss_family dst_addr == af_inet)
              then refused eafnosupport
              else send_packet alloc sendto dst payload (endpoint_to_sockaddr_in inet_pton src_ep))
      by_socket none h = inl (refl, inl h)
      by_socket (some fd) h = elim (Bool-cases (ltb (length dst_addr) 16)) [
        | inl short ↦ rw short (inl (refl, inr (inl (ltb→lt _ _ short))))
        | inr long ↦ elim (Bool-cases (ss_family dst_addr == af_inet)) [
          | inl same ↦ rw (long, same) send_packet-Sends
          | inr other ↦ rw (long, other) (inr (inl (refl, λ e. absurd (ground arith))))
        ]
      ]
