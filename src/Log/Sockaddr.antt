-- ===== src/Log/Sockaddr.antt =====
-- sockaddr_format of src/klog.h, and endpoint_to_sockaddr of src/endpoint.c.
use tinyproxy.Base.{
  ℕ, ◌+◌, ◌*◌, ◌/◌, ◌%◌, ◌==◌, ◌<◌, ◌≡◌, refl, sym, ap, subst, ◌∙◌, Bool, false, [], ◌∷◌, ◌++◌,
  Option, none, some, zero, suc, ltb, if◌then◌else◌, arith, Bytes, codes, length, length-append,
  drop, ok,
}
use tinyproxy.Text.{c_string, is_nil, snprintf_text}
use tinyproxy.Text.Decimal.{decimal}
use tinyproxy.Endpoint.{
  EndpointKind, inet, inet6, unix_kind, unix_dgram_kind, builtin_kind, file_kind, Endpoint,
  endpoint_text, endpoint_to_string,
}
use tinyproxy.Endpoint.Sockaddr.{in_bytes, in6_bytes, sockaddr_by_kind, endpoint_to_sockaddr}
use tinyproxy.Proxy.{put_u16}
use tinyproxy.Datagram.{storage_byte, storage_bytes, ss_family, af_inet, af_inet6}

abbrev af_unix : ℕ
af_unix = 1

abbrev ntohs_port : Bytes → ℕ
ntohs_port addr = storage_byte 2 addr * 256 + storage_byte 3 addr

abbrev in_text : Bytes → Option Bytes → Bytes
in_text addr none = codes "inet:<invalid>:" ++ decimal (ntohs_port addr)
in_text addr (some ip) = ip ++ b':' ∷ decimal (ntohs_port addr)

abbrev in6_text : Bytes → Option Bytes → Bytes
in6_text addr none = codes "inet6:<invalid>:" ++ decimal (ntohs_port addr)
in6_text addr (some ip) = b'[' ∷ (ip ++ b']' ∷ b':' ∷ decimal (ntohs_port addr))

abbrev un_text : Bytes → Bytes
un_text path = if is_nil path then codes "unix:<abstract-or-empty>" else codes "unix:" ++ path

-- What the switch over the family prints.
unfoldable pub sockaddr_text : (ℕ → Bytes → Option Bytes) → Bytes → Bytes
unfolding c_string
sockaddr_text inet_ntop addr =
    if ss_family addr == af_inet
    then (if ltb (length addr) 16
        then codes "inet:<short:" ++ (decimal (length addr) ++ codes ">")
        else in_text addr (inet_ntop af_inet (storage_bytes 4 4 addr)))
    else if ss_family addr == af_inet6
    then (if ltb (length addr) 28
        then codes "inet6:<short:" ++ (decimal (length addr) ++ codes ">")
        else in6_text addr (inet_ntop af_inet6 (storage_bytes 8 16 addr)))
    else if ss_family addr == af_unix
    then (if ltb (length addr) 2
        then codes "unix:<short:" ++ (decimal (length addr) ++ codes ">")
        else un_text (c_string (drop 2 addr)))
    else codes "family:" ++ (decimal (ss_family addr) ++ (codes " len:" ++ decimal (length addr)))

-- `addr` is `none` for NULL, and its bytes are those up to `addr_len`; the result is the C string in
-- the buffer.
unfoldable pub sockaddr_format : (ℕ → Bytes → Option Bytes) → Option Bytes → ℕ → Bytes
unfolding sockaddr_text
sockaddr_format inet_ntop none buf_len =
    if buf_len == 0 then [] else snprintf_text buf_len (codes "<null>")
sockaddr_format inet_ntop (some addr) buf_len =
    if buf_len == 0
    then []
    else if length addr == 0
    then snprintf_text buf_len (codes "<null>")
    else snprintf_text buf_len (sockaddr_text inet_ntop addr)

-- inet_pton and inet_ntop of libc: addresses have 4 and 16 bytes, and a text that names an address
-- and is in the form of inet_ntop is given back.
pub record IsInet (inet_pton inet_ntop : ℕ → Bytes → Option Bytes) (host : Bytes) : Type 0 where
  pub size4 : {addr : Bytes} → inet_pton af_inet host ≡ some addr → length addr ≡ 4
  pub size16 : {addr : Bytes} → inet_pton af_inet6 host ≡ some addr → length addr ≡ 16
  pub back :
      {family : ℕ} {addr : Bytes}
      → inet_pton family host ≡ some addr
      → inet_ntop family addr ≡ some host

storage_bytes-shift :
    (c : ℕ) (i n : ℕ) (addr : Bytes) → storage_bytes (suc i) n (c ∷ addr) ≡ storage_bytes i n addr
storage_bytes-shift c i zero addr = refl
storage_bytes-shift c i (suc n) addr =
    let next : i + 1 ≡ suc i = omega arith in
    let later : suc i + 1 ≡ suc (suc i) = omega arith in
    rw (next, later, storage_bytes-shift c (suc i) n addr) refl

storage_bytes-front :
    (addr rest : Bytes) (n : ℕ) → length addr ≡ n → storage_bytes 0 n (addr ++ rest) ≡ addr
storage_bytes-front [] rest zero h = refl
storage_bytes-front [] rest (suc n) h = absurd (omega arith)
storage_bytes-front (c ∷ addr) rest zero h = absurd (omega arith)
storage_bytes-front (c ∷ addr) rest (suc n) h =
    ap (◌∷◌ c)
      (storage_bytes-shift c 0 n (addr ++ rest) ∙ storage_bytes-front addr rest n (omega arith))

behind_port :
    (w x y z n : ℕ) (rest : Bytes)
    → storage_bytes 4 n (w ∷ x ∷ y ∷ z ∷ rest) ≡ storage_bytes 0 n rest
behind_port w x y z n rest =
    storage_bytes-shift w 3 n _
    ∙ storage_bytes-shift x 2 n _
    ∙ storage_bytes-shift y 1 n _
    ∙ storage_bytes-shift z 0 n _

behind_flowinfo :
    (w x y z a b c d n : ℕ) (rest : Bytes)
    → storage_bytes 8 n (w ∷ x ∷ y ∷ z ∷ a ∷ b ∷ c ∷ d ∷ rest) ≡ storage_bytes 0 n rest
behind_flowinfo w x y z a b c d n rest =
    storage_bytes-shift w 7 n _
    ∙ storage_bytes-shift x 6 n _
    ∙ storage_bytes-shift y 5 n _
    ∙ storage_bytes-shift z 4 n _
    ∙ behind_port a b c d n rest

ok-inj : {a b : Bytes} → ok a ≡ ok b → a ≡ b
ok-inj h = cc

-- An address whose bytes are there, with its text and its port.
chosen :
    (short : Bool) (junk host : Bytes) (print : Option Bytes → Bytes) (o : Option Bytes)
    → short ≡ false
    → o ≡ some host
    → (if short then junk else print o) ≡ print (some host)
chosen short junk host print o full found = rw (full, found) refl

module _ (inet_ntop : ℕ → Bytes → Option Bytes) (host addr : Bytes) (port : ℕ)
    (small : port < 65536) where
  in_text-eq :
      length addr ≡ 4
      → inet_ntop af_inet addr ≡ some host
      → sockaddr_text inet_ntop
          (2 ∷ 0 ∷ (put_u16 port ++ (addr ++ 0 ∷ 0 ∷ 0 ∷ 0 ∷ 0 ∷ 0 ∷ 0 ∷ 0 ∷ [])))
        ≡ host ++ b':' ∷ decimal port
  unfolding sockaddr_text put_u16
  in_text-eq size back =
      let fill : Bytes = 0 ∷ 0 ∷ 0 ∷ 0 ∷ 0 ∷ 0 ∷ 0 ∷ 0 ∷ [] in
      let bytes : Bytes = 2 ∷ 0 ∷ (port / 256 % 256) ∷ (port % 256) ∷ (addr ++ fill) in
      let at : storage_bytes 4 4 bytes ≡ addr =
        behind_port 2 0 (port / 256 % 256) (port % 256) 4 (addr ++ fill)
        ∙ storage_bytes-front addr fill 4 size in
      let same : port / 256 % 256 * 256 + port % 256 ≡ port = omega arith in
      chosen (ltb (length bytes) 16) _ host (in_text bytes)
        (inet_ntop af_inet (storage_bytes 4 4 bytes)) (ground (arith, length-append addr fill))
        (ap (inet_ntop af_inet) at ∙ back)
      ∙ ap (λ n. host ++ b':' ∷ decimal n) same

  in6_text-eq :
      length addr ≡ 16
      → inet_ntop af_inet6 addr ≡ some host
      → sockaddr_text inet_ntop
          (10 ∷ 0 ∷ (put_u16 port ++ (0 ∷ 0 ∷ 0 ∷ 0 ∷ (addr ++ 0 ∷ 0 ∷ 0 ∷ 0 ∷ []))))
        ≡ b'[' ∷ (host ++ b']' ∷ b':' ∷ decimal port)
  unfolding sockaddr_text put_u16
  in6_text-eq size back =
      let fill : Bytes = 0 ∷ 0 ∷ 0 ∷ 0 ∷ [] in
      let bytes : Bytes =
        10 ∷ 0 ∷ (port / 256 % 256) ∷ (port % 256) ∷ 0 ∷ 0 ∷ 0 ∷ 0 ∷ (addr ++ fill) in
      let at : storage_bytes 8 16 bytes ≡ addr =
        behind_flowinfo 10 0 (port / 256 % 256) (port % 256) 0 0 0 0 16 (addr ++ fill)
        ∙ storage_bytes-front addr fill 16 size in
      let same : port / 256 % 256 * 256 + port % 256 ≡ port = omega arith in
      chosen (ltb (length bytes) 28) _ host (in6_text bytes)
        (inet_ntop af_inet6 (storage_bytes 8 16 bytes)) (ground (arith, length-append addr fill))
        (ap (inet_ntop af_inet6) at ∙ back)
      ∙ ap (λ n. b'[' ∷ (host ++ b']' ∷ b':' ∷ decimal n)) same

module _ (inet_pton inet_ntop : ℕ → Bytes → Option Bytes) (ep : Endpoint)
    (is : IsInet inet_pton inet_ntop ep.host) (small : ep.port < 65536) where
  Shows : Bytes → EndpointKind → Type 0
  Shows addr k = (sockaddr_text inet_ntop addr ≡ endpoint_text k ep) × ((length addr == 0) ≡ false)

  in-Shows :
      (o : Option Bytes) (addr : Bytes)
      → inet_pton af_inet ep.host ≡ o
      → in_bytes ep.port o ≡ ok addr
      → Shows addr inet
  unfolding Shows endpoint_text in_bytes
  in-Shows none addr found h = cc
  in-Shows (some a) addr found h =
      let text = in_text-eq inet_ntop ep.host a ep.port small (is.size4 found) (is.back found) in
      subst (λ z. Shows z inet) (ok-inj h) (text, ground arith)

  in6-Shows :
      (o : Option Bytes) (addr : Bytes)
      → inet_pton af_inet6 ep.host ≡ o
      → in6_bytes ep.port o ≡ ok addr
      → Shows addr inet6
  unfolding Shows endpoint_text in6_bytes
  in6-Shows none addr found h = cc
  in6-Shows (some a) addr found h =
      let text = in6_text-eq inet_ntop ep.host a ep.port small (is.size16 found) (is.back found) in
      subst (λ z. Shows z inet6) (ok-inj h) (text, ground arith)

  -- The address that an endpoint is turned into is printed by sockaddr_format exactly as
  -- endpoint_to_string prints the endpoint, into a buffer of any size but 0, if its host is in the form
  -- that inet_ntop gives and its port is one of 16 bits.
  pub sockaddr_format-endpoint_to_sockaddr :
      (addr : Bytes) (buf_len : ℕ)
      → 0 < buf_len
      → endpoint_to_sockaddr inet_pton ep ≡ ok addr
      → endpoint_to_string (some ep) buf_len ≡ ok (sockaddr_format inet_ntop (some addr) buf_len)
  unfolding endpoint_to_sockaddr endpoint_to_string sockaddr_format Shows
  sockaddr_format-endpoint_to_sockaddr addr buf_len pos resolved =
      let (text, full) = by_kind ep.kind resolved in
      let room : (buf_len == 0) ≡ false = ground arith in
      rw (room, full) (ap (λ z. ok (snprintf_text buf_len z)) (sym text))
    where
      by_kind : (k : EndpointKind) → sockaddr_by_kind inet_pton k ep ≡ ok addr → Shows addr k
      by_kind inet h = in-Shows (inet_pton af_inet ep.host) addr refl h
      by_kind inet6 h = in6-Shows (inet_pton af_inet6 ep.host) addr refl h
      by_kind unix_kind h = cc
      by_kind unix_dgram_kind h = cc
      by_kind builtin_kind h = cc
      by_kind file_kind h = cc
