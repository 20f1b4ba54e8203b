-- ===== src/Proxy/Sizes.antt =====
-- The results of proxy_v2_build of src/proxy_proto_v2.c.
use tinyproxy.Base.{
  ℕ, ◌+◌, ◌≤◌, ◌<◌, ◌≡◌, refl, true, false, ◌⊎◌, ◌++◌, arith, inl, inr, Bool-cases, Bytes, length,
  length-append, Result, ok, err, einval, enospc, eafnosupport, eprotonosupport,
}
use tinyproxy.Proxy.{
  Sockaddr, sockaddr_in, sockaddr_in6, other_family, SockType, sock_stream, sock_dgram, other_type,
  sizeof_sockaddr_in, sizeof_sockaddr_in6, same_family, transport, pp2_fam_inet, pp2_fam_inet6,
  put_u16, write_header, switch_family, or_unsupported, proxy_v2_build,
}
use tinyproxy.Proxy.Decoder.{IsPair, Sized}

-- The length of the header that an address pair needs, and of its `struct sockaddr`.
abbrev pub header_size : Sockaddr → ℕ
header_size (sockaddr_in a p) = 28
header_size (sockaddr_in6 a p) = 52
header_size (other_family n) = 0

abbrev pub sizeof_sockaddr : Sockaddr → ℕ
sizeof_sockaddr (sockaddr_in a p) = sizeof_sockaddr_in
sizeof_sockaddr (sockaddr_in6 a p) = sizeof_sockaddr_in6
sizeof_sockaddr (other_family n) = 0

abbrev pub IsOther : Sockaddr → Type 0
IsOther (other_family n) = Unit {0}
IsOther _ = ⊥

abbrev pub IsOtherType : SockType → Type 0
IsOtherType (other_type n) = Unit {0}
IsOtherType _ = ⊥

-- What a call returns, and when.
abbrev pub Returns : ℕ → Sockaddr → ℕ → Sockaddr → ℕ → SockType → Result Bytes → Type 0
Returns buf_len src src_len dst dst_len t (ok header) =
    (length header ≡ header_size src)
    × (length header ≤ buf_len)
    × (sizeof_sockaddr src ≤ src_len)
    × (sizeof_sockaddr src ≤ dst_len)
Returns buf_len src src_len dst dst_len t (err e) =
    ((e ≡ eafnosupport) × ((same_family src dst ≡ false) ⊎ IsOther src))
    ⊎ (((e ≡ eprotonosupport) × IsOtherType t)
        ⊎ (((e ≡ einval) × ((src_len < sizeof_sockaddr src) ⊎ (dst_len < sizeof_sockaddr src)))
            ⊎ ((e ≡ enospc) × (buf_len < header_size src))))

addresses-length :
    (n : ℕ) (a p b q : Bytes) → Sized n a p b q → length (a ++ (b ++ (p ++ q))) ≡ n + n + 4
addresses-length n a p b q (ha, hp, hb, hq) =
    rw (length-append a (b ++ (p ++ q)), length-append b (p ++ q), length-append p q) (omega arith)

module _ (buf_len src_len dst_len : ℕ) (dst : Sockaddr) (t : SockType) (code : ℕ) where
  inet-Returns :
      (a p b q : Bytes)
      → Sized 4 a p b q
      → Returns buf_len (sockaddr_in a p) src_len dst dst_len t (
          write_header buf_len src_len dst_len sizeof_sockaddr_in 12 pp2_fam_inet code
            (a ++ (b ++ (p ++ q))))
  unfolding write_header put_u16
  inet-Returns a p b q w = ground (arith, addresses-length 4 a p b q w)

  inet6-Returns :
      (a p b q : Bytes)
      → Sized 16 a p b q
      → Returns buf_len (sockaddr_in6 a p) src_len dst dst_len t (
          write_header buf_len src_len dst_len sizeof_sockaddr_in6 36 pp2_fam_inet6 code
            (a ++ (b ++ (p ++ q))))
  unfolding write_header put_u16
  inet6-Returns a p b q w = ground (arith, addresses-length 16 a p b q w)

switch-Returns :
    (buf_len : ℕ) (src : Sockaddr) (src_len : ℕ) (dst : Sockaddr) (dst_len : ℕ) (t : SockType)
    (code : ℕ)
    → IsPair src dst
    → same_family src dst ≡ true
    → Returns buf_len src src_len dst dst_len t (switch_family buf_len src src_len dst dst_len code)
unfolding switch_family
switch-Returns buf_len (sockaddr_in a p) src_len (sockaddr_in b q) dst_len t code w same =
    inet-Returns buf_len src_len dst_len (sockaddr_in b q) t code a p b q w
switch-Returns buf_len (sockaddr_in6 a p) src_len (sockaddr_in6 b q) dst_len t code w same =
    inet6-Returns buf_len src_len dst_len (sockaddr_in6 b q) t code a p b q w
switch-Returns _ (other_family m) _ (other_family n) _ _ _ w same = inl (refl, inr tt)
switch-Returns _ (sockaddr_in a p) _ (sockaddr_in6 b q) _ _ _ w same = absurd cc
switch-Returns _ (sockaddr_in a p) _ (other_family _) _ _ _ w same = absurd cc
switch-Returns _ (sockaddr_in6 a p) _ (sockaddr_in b q) _ _ _ w same = absurd cc
switch-Returns _ (sockaddr_in6 a p) _ (other_family _) _ _ _ w same = absurd cc
switch-Returns _ (other_family _) _ (sockaddr_in b q) _ _ _ w same = absurd cc
switch-Returns _ (other_family _) _ (sockaddr_in6 b q) _ _ _ w same = absurd cc

module _ (buf_len : ℕ) (src : Sockaddr) (src_len : ℕ) (dst : Sockaddr) (dst_len : ℕ) where
  or_unsupported-Returns :
      (t : SockType)
      → IsPair src dst
      → same_family src dst ≡ true
      → Returns buf_len src src_len dst dst_len t
          (or_unsupported buf_len src src_len dst dst_len (transport t))
  unfolding or_unsupported
  or_unsupported-Returns sock_stream w same =
      switch-Returns buf_len src src_len dst dst_len sock_stream 1 w same
  or_unsupported-Returns sock_dgram w same =
      switch-Returns buf_len src src_len dst dst_len sock_dgram 2 w same
  or_unsupported-Returns (other_type n) w same = inr (inl (refl, tt))

-- Every call returns a header of 28 bytes for IPv4 or 52 for IPv6, which fits the buffer, and then
-- both addresses are long enough; or the error of a condition that does not hold: another family
-- or two families, another type of socket, a short address, or a short buffer. The arrays of the
-- addresses have the sizes of their types.
pub proxy_v2_build-Returns :
    (buf_len : ℕ) (src : Sockaddr) (src_len : ℕ) (dst : Sockaddr) (dst_len : ℕ) (t : SockType)
    → IsPair src dst
    → Returns buf_len src src_len dst dst_len t (proxy_v2_build buf_len src src_len dst dst_len t)
unfolding proxy_v2_build
proxy_v2_build-Returns buf_len src src_len dst dst_len t w =
    elim (Bool-cases (same_family src dst)) [
      | inl same ↦ rw same (or_unsupported-Returns buf_len src src_len dst dst_len t w same)
      | inr other ↦ rw other (inl (refl, inl other))
    ]
