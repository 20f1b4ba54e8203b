-- ===== src/Endpoint/Sockaddr.antt =====
-- endpoint_to_sockaddr of src/endpoint.c.
use tinyproxy.Base.{ℕ, [], ◌∷◌, ◌++◌, Option, none, some, Bytes, Result, ok, err, einval}
use tinyproxy.Endpoint.{EndpointKind, inet, inet6, Endpoint}
use tinyproxy.Proxy.{put_u16}

-- A `struct sockaddr_in` and a `struct sockaddr_in6` in memory, on a little-endian machine, with the
-- address that inet_pton has stored.
unfoldable pub in_bytes : ℕ → Option Bytes → Result Bytes
unfolding put_u16
in_bytes port none = err einval
in_bytes port (some addr) =
    ok (2 ∷ 0 ∷ (put_u16 port ++ (addr ++ 0 ∷ 0 ∷ 0 ∷ 0 ∷ 0 ∷ 0 ∷ 0 ∷ 0 ∷ [])))

unfoldable pub in6_bytes : ℕ → Option Bytes → Result Bytes
unfolding put_u16
in6_bytes port none = err einval
in6_bytes port (some addr) =
    ok (10 ∷ 0 ∷ (put_u16 port ++ (0 ∷ 0 ∷ 0 ∷ 0 ∷ (addr ++ 0 ∷ 0 ∷ 0 ∷ 0 ∷ []))))

abbrev pub sockaddr_by_kind : (ℕ → Bytes → Option Bytes) → EndpointKind → Endpoint → Result Bytes
sockaddr_by_kind inet_pton inet ep = in_bytes ep.port (inet_pton 2 ep.host)
sockaddr_by_kind inet_pton inet6 ep = in6_bytes ep.port (inet_pton 10 ep.host)
sockaddr_by_kind inet_pton _ ep = err einval

-- `inet_pton` gives the bytes of the address that a text of a family names. The result has the bytes
-- of `*ss` up to `*ss_len`.
unfoldable pub endpoint_to_sockaddr : (ℕ → Bytes → Option Bytes) → Endpoint → Result Bytes
unfolding in_bytes in6_bytes
endpoint_to_sockaddr inet_pton ep = sockaddr_by_kind inet_pton ep.kind ep
