-- ===== src/Proxy/Decoder.antt =====
-- A reader of PROXY protocol headers, written from the protocol, for src/proxy_proto_v2.c.
use tinyproxy.Base.{
  ℕ, ◌+◌, ◌*◌, ◌≤◌, ◌≡◌, refl, ap, ◌∙◌, ◌==◌, false, ◌&&◌, [], ◌∷◌, ◌++◌, append_assoc, Option,
  none, some, ltb, if◌then◌else◌, arith, inl, inr, Bool-cases, Bytes, str_eq, length, take, drop,
  take-front, drop-front, length-append, ok,
}
use tinyproxy.Proxy.{
  Sockaddr, sockaddr_in, sockaddr_in6, other_family, SockType, sock_stream, sock_dgram, other_type,
  same_family, transport, pp2_fam_inet, pp2_fam_inet6, put_u16, header_of, write_header,
  switch_family, or_unsupported, proxy_v2_build,
}

-- What an upstream learns.
pub record Announced : Type 0 where
  pub src : Sockaddr
  pub dst : Sockaddr
  pub sock_type : SockType

-- Two addresses of `n` bytes, two ports, and what follows.
abbrev pub read_pair :
    (Bytes → Bytes → Sockaddr) → ℕ → SockType → Bytes → Option (Announced × Bytes)
read_pair make n t body = some (
  record {
    src = make (take n body) (take 2 (drop n (drop n body)));
    dst = make (take n (drop n body)) (take 2 (drop 2 (drop n (drop n body))));
    sock_type = t;
  },
  drop 2 (drop 2 (drop n (drop n body))),
)

-- The byte of family and transport, with the length of the addresses.
abbrev pub read_family : ℕ → ℕ → Bytes → Option (Announced × Bytes)
read_family fam addr_len body =
    if ltb (length body) addr_len
    then none
    else if fam == 0x11 && addr_len == 12
    then read_pair sockaddr_in 4 sock_stream body
    else if fam == 0x12 && addr_len == 12
    then read_pair sockaddr_in 4 sock_dgram body
    else if fam == 0x21 && addr_len == 36
    then read_pair sockaddr_in6 16 sock_stream body
    else if fam == 0x22 && addr_len == 36
    then read_pair sockaddr_in6 16 sock_dgram body
    else none

abbrev pub after_signature : Bytes → Option (Announced × Bytes)
after_signature (ver_cmd ∷ fam ∷ hi ∷ lo ∷ body) =
    if ver_cmd == 0x21 then read_family fam (hi * 256 + lo) body else none
after_signature _ = none

-- The signature is the bytes of "\r\n\r\n\0\r\nQUIT\n".
abbrev pub read_proxy_v2 : Bytes → Option (Announced × Bytes)
read_proxy_v2 bytes =
    if str_eq (take 12 bytes)
      (b'\r' ∷ b'\n' ∷ b'\r' ∷ b'\n' ∷ 0 ∷ b'\r' ∷ b'\n' ∷ b'Q' ∷ b'U' ∷ b'I' ∷ b'T' ∷ b'\n' ∷ [])
    then after_signature (drop 12 bytes)
    else none

-- The addresses of a pair as the switch takes them: one family, and arrays of its sizes.
abbrev pub Sized : ℕ → Bytes → Bytes → Bytes → Bytes → Type 0
Sized n a p b q = (length a ≡ n) × (length p ≡ 2) × (length b ≡ n) × (length q ≡ 2)

abbrev pub IsPair : Sockaddr → Sockaddr → Type 0
IsPair (sockaddr_in a p) (sockaddr_in b q) = Sized 4 a p b q
IsPair (sockaddr_in6 a p) (sockaddr_in6 b q) = Sized 16 a p b q
IsPair _ _ = Unit {0}

read_pair-front :
    (make : Bytes → Bytes → Sockaddr) (n : ℕ) (t : SockType) (a p b q rest : Bytes)
    → Sized n a p b q
    → read_pair make n t (a ++ (b ++ (p ++ (q ++ rest))))
      ≡ some (record { src = make a p; dst = make b q; sock_type = t }, rest)
read_pair-front make n t a p b q rest (ha, hp, hb, hq) = rw (
  drop-front n a (b ++ (p ++ (q ++ rest))) ha,
  take-front n a (b ++ (p ++ (q ++ rest))) ha,
  drop-front n b (p ++ (q ++ rest)) hb,
  take-front n b (p ++ (q ++ rest)) hb,
  drop-front 2 p (q ++ rest) hp,
  take-front 2 p (q ++ rest) hp,
  drop-front 2 q rest hq,
  take-front 2 q rest hq,
)

addresses_long :
    (n : ℕ) (a p b q rest : Bytes)
    → Sized n a p b q
    → ltb (length (a ++ (b ++ (p ++ (q ++ rest))))) (n + n + 4) ≡ false
addresses_long n a p b q rest (ha, hp, hb, hq) =
    rw
      (
        length-append a (b ++ (p ++ (q ++ rest))),
        length-append b (p ++ (q ++ rest)),
        length-append p (q ++ rest),
        length-append q rest,
      )
      (ground arith)

addresses_assoc :
    (a b p q rest : Bytes) → (a ++ (b ++ (p ++ q))) ++ rest ≡ a ++ (b ++ (p ++ (q ++ rest)))
addresses_assoc a b p q rest =
    append_assoc a (b ++ (p ++ q)) rest
    ∙ ap (λ z. a ++ z) (append_assoc b (p ++ q) rest)
    ∙ ap (λ z. a ++ (b ++ z)) (append_assoc p q rest)

code_eq : {m n : ℕ} → some m ≡ some n → n ≡ m
code_eq e = cc

module _ (a p b q rest : Bytes) where
  inet-reads :
      Sized 4 a p b q
      → (t : SockType) (code : ℕ) → transport t ≡ some code
      → read_proxy_v2 (header_of 12 pp2_fam_inet code (a ++ (b ++ (p ++ q))) ++ rest)
        ≡ some (record { src = sockaddr_in a p; dst = sockaddr_in b q; sock_type = t }, rest)
  unfolding put_u16 str_eq
  inet-reads w sock_stream code e =
      rw (code_eq e, addresses_assoc a b p q rest, addresses_long 4 a p b q rest w)
        (read_pair-front sockaddr_in 4 sock_stream a p b q rest w)
  inet-reads w sock_dgram code e =
      rw (code_eq e, addresses_assoc a b p q rest, addresses_long 4 a p b q rest w)
        (read_pair-front sockaddr_in 4 sock_dgram a p b q rest w)
  inet-reads w (other_type t) code e = cc

  inet6-reads :
      Sized 16 a p b q
      → (t : SockType) (code : ℕ) → transport t ≡ some code
      → read_proxy_v2 (header_of 36 pp2_fam_inet6 code (a ++ (b ++ (p ++ q))) ++ rest)
        ≡ some (record { src = sockaddr_in6 a p; dst = sockaddr_in6 b q; sock_type = t }, rest)
  unfolding put_u16 str_eq
  inet6-reads w sock_stream code e =
      rw (code_eq e, addresses_assoc a b p q rest, addresses_long 16 a p b q rest w)
        (read_pair-front sockaddr_in6 16 sock_stream a p b q rest w)
  inet6-reads w sock_dgram code e =
      rw (code_eq e, addresses_assoc a b p q rest, addresses_long 16 a p b q rest w)
        (read_pair-front sockaddr_in6 16 sock_dgram a p b q rest w)
  inet6-reads w (other_type t) code e = cc

-- A header that was built is what the `header_of` its parts is, and every condition holds.
write_header-eq :
    (buf_len src_len dst_len sizeof_sockaddr addr_len fam code : ℕ) (addresses : Bytes)
    (header : Bytes)
    → write_header buf_len src_len dst_len sizeof_sockaddr addr_len fam code addresses ≡ ok header
    → (header ≡ header_of addr_len fam code addresses)
      × (sizeof_sockaddr ≤ src_len)
      × (sizeof_sockaddr ≤ dst_len)
      × (16 + addr_len ≤ buf_len)
unfolding write_header
write_header-eq buf_len src_len dst_len sizeof_sockaddr addr_len fam code addresses header h =
    (ground arith, ground arith, ground arith, ground arith)

switch-reads :
    (buf_len : ℕ) (src : Sockaddr) (src_len : ℕ) (dst : Sockaddr) (dst_len : ℕ) (t : SockType)
    (code : ℕ) (header rest : Bytes)
    → IsPair src dst
    → transport t ≡ some code
    → switch_family buf_len src src_len dst dst_len code ≡ ok header
    → read_proxy_v2 (header ++ rest) ≡ some (record { src = src; dst = dst; sock_type = t }, rest)
unfolding switch_family
switch-reads buf_len (sockaddr_in a p) src_len (sockaddr_in b q) dst_len t code header rest w e h =
    rw ((write_header-eq _ _ _ _ _ _ _ _ _ h).0) (inet-reads a p b q rest w t code e)
switch-reads buf_len (sockaddr_in6 a p) src_len (sockaddr_in6 b q) dst_len t code header rest w e
      h =
    rw ((write_header-eq _ _ _ _ _ _ _ _ _ h).0) (inet6-reads a p b q rest w t code e)
switch-reads _ (sockaddr_in a p) _ (sockaddr_in6 b q) _ _ _ _ _ w e h = cc
switch-reads _ (sockaddr_in a p) _ (other_family _) _ _ _ _ _ w e h = cc
switch-reads _ (sockaddr_in6 a p) _ (sockaddr_in b q) _ _ _ _ _ w e h = cc
switch-reads _ (sockaddr_in6 a p) _ (other_family _) _ _ _ _ _ w e h = cc
switch-reads _ (other_family _) _ _ _ _ _ _ _ w e h = cc

or_unsupported-reads :
    (buf_len : ℕ) (src : Sockaddr) (src_len : ℕ) (dst : Sockaddr) (dst_len : ℕ) (t : SockType)
    (o : Option ℕ) (header rest : Bytes)
    → IsPair src dst
    → transport t ≡ o
    → or_unsupported buf_len src src_len dst dst_len o ≡ ok header
    → read_proxy_v2 (header ++ rest) ≡ some (record { src = src; dst = dst; sock_type = t }, rest)
unfolding or_unsupported
or_unsupported-reads _ _ _ _ _ _ none _ _ w e h = cc
or_unsupported-reads buf_len src src_len dst dst_len t (some code) header rest w e h =
    switch-reads buf_len src src_len dst dst_len t code header rest w e h

-- Every header that is built, with any bytes behind it, is read back as the two addresses, their
-- ports and the type of the socket, and leaves those bytes. The arrays of the addresses have the
-- sizes of their types.
pub proxy_v2_build-read :
    (buf_len : ℕ) (src : Sockaddr) (src_len : ℕ) (dst : Sockaddr) (dst_len : ℕ) (t : SockType)
    (header rest : Bytes)
    → IsPair src dst
    → proxy_v2_build buf_len src src_len dst dst_len t ≡ ok header
    → read_proxy_v2 (header ++ rest) ≡ some (record { src = src; dst = dst; sock_type = t }, rest)
unfolding proxy_v2_build
proxy_v2_build-read buf_len src src_len dst dst_len t header rest w h =
    elim (Bool-cases (same_family src dst)) [
      | inl same ↦
          or_unsupported-reads buf_len src src_len dst dst_len t (transport t) header rest w refl
            (ground arith)
      | inr other ↦ absurd (ground arith)
    ]
