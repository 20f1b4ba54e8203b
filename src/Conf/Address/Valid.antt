-- ===== src/Conf/Address/Valid.antt =====
-- What the endpoint parsers of src/file_conf.c accept.
use mathlib.Core.Path.{subst}
use tinyproxy.Base.{
  sym, ◌≤◌, ◌<◌, ◌≡◌, ◌≢◌, refl, Bool, true, false, [], ◌∷◌, Option, none, some, arith, Bytes,
  length, codes, ◌⊎◌, Option-cases, inl, inr, ap, Result, ok, err,
}
use tinyproxy.Text.{strchr}
use tinyproxy.Text.Numbers.{parse_port, parse_port_bounds}
use tinyproxy.Builtin.{XBuiltin, none_builtin, x_builtin_parse}
use tinyproxy.Builtin.Names.{x_builtin_names}
use tinyproxy.Endpoint.{
  EndpointProto, tcp, udp, unix_stream, unix_dgram, file, builtin, EndpointKind, inet, inet6,
  unix_kind, unix_dgram_kind, builtin_kind, file_kind, Endpoint, host_size, path_size,
}
use tinyproxy.Conf.Address.{
  HostPort, with_port, split_bracketed, split_plain, split_host_port, inet_endpoint, path_endpoint,
  builtin_endpoint, parse_endpoint,
}

pub record IsHostPort (hp : HostPort) : Type 0 where
  pub host_some : 0 < length hp.host
  pub host_fits : length hp.host < host_size
  pub port_some : 0 < hp.port
  pub port_fits : hp.port ≤ 65535

with_port-IsHostPort :
    (host : Bytes) (v6 : Bool) (port_s : Bytes) (hp : HostPort)
    → with_port host v6 (parse_port port_s) ≡ some hp
    → 0 < length host
    → length host < host_size
    → IsHostPort hp
with_port-IsHostPort host v6 port_s hp e some_host fits = elim (Option-cases (parse_port port_s)) [
  | inl n ↦ cc (e, ap (with_port host v6) n)
  | inr (p, n) ↦ let bounds = parse_port_bounds port_s n in ground (arith, ap (with_port host v6) n)
]

bracketed-IsHostPort :
    (o : Option (Bytes × Bytes)) (hp : HostPort)
    → split_bracketed host_size o ≡ some hp
    → IsHostPort hp
unfolding split_bracketed
bracketed-IsHostPort none hp e = cc
bracketed-IsHostPort (some (host, [])) hp e = cc
bracketed-IsHostPort (some (host, c ∷ port_s)) hp e =
    ground (arith, with_port-IsHostPort host true port_s hp)

plain-IsHostPort :
    (o : Option (Bytes × Bytes)) (hp : HostPort) → split_plain host_size o ≡ some hp → IsHostPort hp
unfolding split_plain
plain-IsHostPort none hp e = cc
plain-IsHostPort (some ([], port_s)) hp e =
    ground (arith, with_port-IsHostPort (codes "0.0.0.0") false port_s hp)
plain-IsHostPort (some (h ∷ host, port_s)) hp e =
    ground (arith, with_port-IsHostPort (h ∷ host) false port_s hp)

split_host_port-IsHostPort :
    (s : Bytes) (hp : HostPort) → split_host_port s host_size ≡ some hp → IsHostPort hp
unfolding split_host_port
split_host_port-IsHostPort [] hp e = cc
split_host_port-IsHostPort (c ∷ cs) hp e =
    ground
      (arith, bracketed-IsHostPort (strchr b']' cs) hp, plain-IsHostPort (strchr b':' (c ∷ cs)) hp)

abbrev InetFields : Endpoint → Type 0
InetFields ep =
    ((ep.kind ≡ inet) ⊎ (ep.kind ≡ inet6))
    × (0 < length ep.host)
    × (length ep.host < host_size)
    × (0 < ep.port)
    × (ep.port ≤ 65535)

abbrev PathFields : Endpoint → Type 0
PathFields ep = (0 < length ep.path) × (length ep.path < path_size)

-- The kind that goes with a protocol, and what the fields for it hold.
abbrev pub Fields : EndpointProto → Endpoint → Type 0
Fields tcp ep = InetFields ep
Fields udp ep = InetFields ep
Fields unix_stream ep = (ep.kind ≡ unix_kind) × PathFields ep
Fields unix_dgram ep = (ep.kind ≡ unix_dgram_kind) × PathFields ep
Fields file ep = (ep.kind ≡ file_kind) × PathFields ep
Fields builtin ep = (ep.kind ≡ builtin_kind) × (ep.builtin_id ≢ none_builtin)

abbrev pub IsEndpoint : Endpoint → Type 0
IsEndpoint ep = Fields ep.proto ep

inet-Fields :
    (proto : EndpointProto) (o : Option HostPort) (ep : Endpoint)
    → ((hp : HostPort) → o ≡ some hp → IsHostPort hp)
    → inet_endpoint proto o ≡ some ep
    → (ep.proto ≡ proto) × InetFields ep
unfolding inet_endpoint
inet-Fields proto none ep ok_hp e = cc
inet-Fields proto (some hp) ep ok_hp e = let v = ok_hp hp refl in ground arith

path-Fields :
    (proto : EndpointProto) (kind : EndpointKind) (s : Bytes) (ep : Endpoint)
    → path_endpoint proto kind s ≡ some ep
    → (ep.proto ≡ proto) × (ep.kind ≡ kind) × PathFields ep
unfolding path_endpoint
path-Fields proto kind [] ep e = cc
path-Fields proto kind (c ∷ s) ep e = ground arith

builtin-Fields :
    (s : Bytes) (o : Result XBuiltin) (ep : Endpoint)
    → ((b : XBuiltin) → o ≡ ok b → b ≢ none_builtin)
    → builtin_endpoint s o ≡ some ep
    → (ep.proto ≡ builtin) × (ep.kind ≡ builtin_kind) × (ep.builtin_id ≢ none_builtin)
unfolding builtin_endpoint
builtin-Fields s (err x) ep h e = cc
builtin-Fields [] (ok b) ep h e = cc
builtin-Fields (c ∷ s) (ok b) ep h e = (ground arith, ground arith, λ n. h b refl (ground arith))

has_Fields :
    (proto : EndpointProto) (s : Bytes) (ep : Endpoint)
    → parse_endpoint proto s ≡ some ep
    → (ep.proto ≡ proto) × Fields proto ep
unfolding parse_endpoint
has_Fields tcp s ep e = inet-Fields tcp _ ep (split_host_port-IsHostPort s) e
has_Fields udp s ep e = inet-Fields udp _ ep (split_host_port-IsHostPort s) e
has_Fields unix_stream s ep e =
    let f = path-Fields unix_stream unix_kind s ep e in (f.0, (f.1, f.2))
has_Fields unix_dgram s ep e =
    let f = path-Fields unix_dgram unix_dgram_kind s ep e in (f.0, (f.1, f.2))
has_Fields file s ep e = let f = path-Fields file file_kind s ep e in (f.0, (f.1, f.2))
has_Fields builtin s ep e =
    let f = builtin-Fields s (x_builtin_parse s) ep (λ b h. (x_builtin_names.1 s b h).1) e in
    (f.0, (f.1, f.2))

-- An accepted endpoint has the protocol that was asked for and the kind that belongs to it; a
-- host of 1 to 255 bytes and a port of 1 to 65535, a path of 1 to 107 bytes, or a builtin.
pub parse_endpoint-IsEndpoint :
    (proto : EndpointProto) (s : Bytes) (ep : Endpoint)
    → parse_endpoint proto s ≡ some ep
    → (ep.proto ≡ proto) × IsEndpoint ep
parse_endpoint-IsEndpoint proto s ep e =
    let (p, f) = has_Fields proto s ep e in (p, subst (λ q. Fields q ep) (sym p) f)
