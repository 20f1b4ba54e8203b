-- ===== src/Proxy.antt =====
-- src/proxy_proto_v2.c and src/proxy_proto_v2.h: the PROXY header.
pub mod Decoder
pub mod Sizes
pub mod Tests
use tinyproxy.Base.{
  ℕ, ◌+◌, ◌*◌, ◌/◌, ◌%◌, ◌==◌, Bool, true, false, not, ◌||◌, List, [], ◌∷◌, ◌++◌, Option, none,
  some, ltb, if◌then◌else◌, Bytes, Result, ok, err, einval, enospc, eafnosupport, eprotonosupport,
}

-- What a `struct sockaddr` holds: an address and a port as they stand in memory, in network order,
-- of 4 and 2 bytes with AF_INET and of 16 and 2 bytes with AF_INET6, or another family's number.
pub data Sockaddr : Type 0 where
  sockaddr_in sockaddr_in6 : Bytes → Bytes → Sockaddr
  other_family : ℕ → Sockaddr

pub data SockType : Type 0 where
  sock_stream sock_dgram : SockType
  other_type : ℕ → SockType

-- sizeof(struct sockaddr_in) and sizeof(struct sockaddr_in6)
abbrev pub sizeof_sockaddr_in : ℕ
sizeof_sockaddr_in = 16

abbrev pub sizeof_sockaddr_in6 : ℕ
sizeof_sockaddr_in6 = 28

-- PROXY_V2_SIG
abbrev pub proxy_v2_sig : Bytes
proxy_v2_sig = 13 ∷ 10 ∷ 13 ∷ 10 ∷ 0 ∷ 13 ∷ 10 ∷ 81 ∷ 85 ∷ 73 ∷ 84 ∷ 10 ∷ []

abbrev pub pp2_version_cmd_proxy : ℕ
pp2_version_cmd_proxy = 0x21

abbrev pub pp2_fam_inet : ℕ
pp2_fam_inet = 0x10

abbrev pub pp2_fam_inet6 : ℕ
pp2_fam_inet6 = 0x20

-- PP2_TRANS_STREAM and PP2_TRANS_DGRAM, or no support.
abbrev pub transport : SockType → Option ℕ
transport sock_stream = some 0x01
transport sock_dgram = some 0x02
transport (other_type t) = none

unfoldable pub put_u16 : ℕ → Bytes
put_u16 v = v / 256 % 256 ∷ v % 256 ∷ []

-- `src->sa_family == dst->sa_family`, where no other family has the number of AF_INET or AF_INET6.
abbrev pub same_family : Sockaddr → Sockaddr → Bool
same_family (sockaddr_in _ _) (sockaddr_in _ _) = true
same_family (sockaddr_in6 _ _) (sockaddr_in6 _ _) = true
same_family (other_family m) (other_family n) = m == n
same_family _ _ = false

abbrev pub header_of : ℕ → ℕ → ℕ → Bytes → Bytes
unfolding put_u16
header_of addr_len fam fam_proto addresses =
    proxy_v2_sig ++ (pp2_version_cmd_proxy ∷ (fam + fam_proto) ∷ (put_u16 addr_len ++ addresses))

-- One case of the switch. The bits of family and transport are disjoint, so that `|` is a sum.
write_header : ℕ → ℕ → ℕ → ℕ → ℕ → ℕ → ℕ → Bytes → Result Bytes
write_header buf_len src_len dst_len sizeof_sockaddr addr_len fam fam_proto addresses =
    if ltb src_len sizeof_sockaddr || ltb dst_len sizeof_sockaddr
    then err einval
    else if ltb buf_len (16 + addr_len)
    then err enospc
    else ok (header_of addr_len fam fam_proto addresses)

-- The switch on the family, which both addresses share.
switch_family : ℕ → Sockaddr → ℕ → Sockaddr → ℕ → ℕ → Result Bytes
switch_family buf_len (sockaddr_in a p) src_len (sockaddr_in b q) dst_len fam_proto =
    write_header buf_len src_len dst_len sizeof_sockaddr_in 12 pp2_fam_inet fam_proto
      (a ++ (b ++ (p ++ q)))
switch_family buf_len (sockaddr_in6 a p) src_len (sockaddr_in6 b q) dst_len fam_proto =
    write_header buf_len src_len dst_len sizeof_sockaddr_in6 36 pp2_fam_inet6 fam_proto
      (a ++ (b ++ (p ++ q)))
switch_family buf_len _ src_len _ dst_len fam_proto = err eafnosupport

or_unsupported : ℕ → Sockaddr → ℕ → Sockaddr → ℕ → Option ℕ → Result Bytes
or_unsupported buf_len src src_len dst dst_len none = err eprotonosupport
or_unsupported buf_len src src_len dst dst_len (some fam_proto) =
    switch_family buf_len src src_len dst dst_len fam_proto

-- The bytes written to the front of `buf`; `*out_len` is their number.
unfoldable pub proxy_v2_build : ℕ → Sockaddr → ℕ → Sockaddr → ℕ → SockType → Result Bytes
unfolding or_unsupported switch_family write_header
proxy_v2_build buf_len src src_len dst dst_len sock_type =
    if not (same_family src dst)
    then err eafnosupport
    else or_unsupported buf_len src src_len dst dst_len (transport sock_type)
