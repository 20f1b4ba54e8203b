-- ===== src/Datagram/Raw.antt =====
-- src/datagram_raw.c and src/datagram_raw.h on a platform with raw IPv4 sockets whose kernel takes
-- the length and the offset of a packet in network order (Linux), on a little-endian machine.
pub mod Checksum
pub mod Read
use tinyproxy.Base.{
  ℕ, zero, suc, ◌+◌, ◌-◌, ◌*◌, ◌/◌, ◌%◌, ◌^◌, ◌==◌, Bool, true, false, not, List, [], ◌∷◌, ◌++◌,
  Option, none, some, ltb, if◌then◌else◌, Bytes, length, Errno, einval, eafnosupport, emsgsize,
  enomem, eio, Result, ok, err,
}
use tinyproxy.Worker.{Socket, socket_is_valid}
use tinyproxy.Endpoint.{EndpointKind, inet, Endpoint}
use tinyproxy.Proxy.{put_u16, sizeof_sockaddr_in}
use tinyproxy.Datagram.{ss_family, af_inet, storage_bytes}

-- `((uint16_t)p[0] << 8) | p[1]` is a sum: the bits are disjoint.
unfoldable pub sum_words : ℕ → Bytes → ℕ
sum_words sum (a ∷ b ∷ p) = sum_words ((sum + (a * 256 + b)) % 2 ^ 32) p
sum_words sum (a ∷ []) = (sum + a * 256) % 2 ^ 32
sum_words sum [] = sum

-- The loop that adds the carries, at most as often as the first argument says.
unfoldable pub fold_carries : ℕ → ℕ → ℕ
fold_carries zero sum = sum
fold_carries (suc n) sum =
    let rest = fold_carries n (sum % 65536 + sum / 65536) in if sum / 65536 == 0 then sum else rest

-- `(uint16_t)~sum`; a sum of 32 bits has no carry left after two turns.
unfoldable pub checksum16 : Bytes → ℕ
unfolding sum_words fold_carries
checksum16 bytes = 65535 - fold_carries 2 (sum_words 0 bytes) % 65536

-- `struct sockaddr_in` and the address that an endpoint or a peer has: 4 and 2 bytes in network order.
pub record SockaddrIn : Type 0 where
  pub sin_addr : Bytes
  pub sin_port : Bytes

abbrev pub or_invalid : ℕ → Option Bytes → Result SockaddrIn
unfolding put_u16
or_invalid port none = err einval
or_invalid port (some addr) = ok (record { sin_addr = addr; sin_port = put_u16 port })

abbrev pub is_inet : EndpointKind → Bool
is_inet inet = true
is_inet _ = false

-- `inet_pton` gives the bytes of an address, or `none` where it does not return 1.
unfoldable pub endpoint_to_sockaddr_in : (Bytes → Option Bytes) → Endpoint → Result SockaddrIn
endpoint_to_sockaddr_in inet_pton ep =
    if not (is_inet ep.kind) then err einval else or_invalid ep.port (inet_pton ep.host)

-- `struct raw_ipv4_hdr` with the two bytes of `sum`.
abbrev pub raw_ipv4_hdr : ℕ → Bytes → SockaddrIn → SockaddrIn → Bytes
unfolding put_u16
raw_ipv4_hdr packet_len sum src dst =
    (0x45 ∷ 0 ∷ put_u16 packet_len)
    ++ ((0 ∷ 0 ∷ 0 ∷ 0 ∷ 64 ∷ 17 ∷ sum) ++ (src.sin_addr ++ dst.sin_addr))

abbrev pub raw_udp_hdr : ℕ → SockaddrIn → SockaddrIn → Bytes
unfolding put_u16
raw_udp_hdr udp_len src dst = src.sin_port ++ (dst.sin_port ++ (put_u16 udp_len ++ (0 ∷ 0 ∷ [])))

-- `ip->sum = checksum16(ip, ip_len)`, with no change of the order of its bytes.
abbrev pub ip_sum : ℕ → SockaddrIn → SockaddrIn → Bytes
ip_sum packet_len src dst =
    let sum = checksum16 (raw_ipv4_hdr packet_len (0 ∷ 0 ∷ []) src dst) in
    sum % 256 ∷ sum / 256 ∷ []

abbrev pub raw_packet : SockaddrIn → SockaddrIn → Bytes → Bytes
raw_packet src dst payload =
    let packet_len = 20 + 8 + length payload in
    raw_ipv4_hdr packet_len (ip_sum packet_len src dst) src dst
    ++ (raw_udp_hdr (8 + length payload) src dst ++ payload)

-- The return code, `none` for 0, and the packet that was handed to the kernel.
pub record Sending : Type 0 where
  pub rc : Option Errno
  pub packet : Option Bytes

abbrev pub refused : Errno → Sending
refused e = record { rc = some e; packet = none }

abbrev pub sent_all : ℕ → Result ℕ → Option Errno
sent_all packet_len (err e) = some e
sent_all packet_len (ok n) = if n == packet_len then none else some eio

abbrev pub send_packet : Bool → Result ℕ → SockaddrIn → Bytes → Result SockaddrIn → Sending
send_packet alloc sendto dst payload (err e) = refused e
send_packet alloc sendto dst payload (ok src) =
    if ltb (65535 - 20 - 8) (length payload)
    then refused emsgsize
    else if not alloc
    then refused enomem
    else record {
      rc = sent_all (20 + 8 + length payload) sendto;
      packet = some (raw_packet src dst payload);
    }

-- `alloc` tells whether calloc gives memory, and `sendto` is what that call returns. The pointers
-- are not NULL.
unfoldable pub datagram_raw_send_udp_ipv4 :
    (Bytes → Option Bytes) → Bool → Result ℕ → Socket → Endpoint → Bytes → Bytes → Sending
unfolding endpoint_to_sockaddr_in checksum16
datagram_raw_send_udp_ipv4 inet_pton alloc sendto raw_fd src_ep dst_addr payload =
    let dst : SockaddrIn = record {
      sin_addr = storage_bytes 4 4 dst_addr;
      sin_port = storage_bytes 2 2 dst_addr;
    } in
    if not (socket_is_valid raw_fd)
    then refused einval
    else if ltb (length dst_addr) sizeof_sockaddr_in
    then refused einval
    else if not (ss_family dst_addr == af_inet)
    then refused eafnosupport
    else send_packet alloc sendto dst payload (endpoint_to_sockaddr_in inet_pton src_ep)
