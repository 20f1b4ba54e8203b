-- ===== src/Route.antt =====
-- src/route.h, src/route.c and validate_route of src/route_runtime.c.
use tinyproxy.Base.{
  ℕ, ◌-◌, Bool, true, false, not, ◌||◌, [], ◌++◌, Option, none, some, leb, ◌==◌, if◌then◌else◌,
  Bytes, codes, length, take, Result, ok, err, einval,
}
use tinyproxy.Text.Decimal.{decimal}
use tinyproxy.Endpoint.{
  EndpointProto, file, builtin, Endpoint, endpoint_is_stream, endpoint_is_datagram,
  endpoint_is_listenable,
}

pub data BroadcastReplyMode : Type 0 where
  off listen upstream : BroadcastReplyMode

-- The numbers are `int`s that are never negative.
pub record RouteOptions : Type 0 where
  pub proxy_v2 : Bool
  pub keep_alive : Bool
  pub sni_sniff : Bool
  pub idle_timeout_sec : ℕ
  pub connect_timeout_sec : ℕ
  pub bind_wait_sec : ℕ
  pub broadcast_reply : BroadcastReplyMode

pub record Route : Type 0 where
  pub listen_ep : Endpoint
  pub upstream_ep : Endpoint
  pub opts : RouteOptions
  pub line_no : ℕ

abbrev pub route_default_idle_timeout_sec : ℕ
route_default_idle_timeout_sec = 60

abbrev pub route_default_connect_timeout_sec : ℕ
route_default_connect_timeout_sec = 5

abbrev pub is_file_or_builtin : EndpointProto → Bool
is_file_or_builtin file = true
is_file_or_builtin builtin = true
is_file_or_builtin _ = false

abbrev pub is_builtin : EndpointProto → Bool
is_builtin builtin = true
is_builtin _ = false

-- validate_route; `none` is the NULL pointer.
unfoldable pub validate_route : Option Route → Result (Unit {0})
unfolding endpoint_is_listenable endpoint_is_stream endpoint_is_datagram
validate_route none = err einval
validate_route (some r) =
    if not (endpoint_is_listenable (some r.listen_ep))
    then err einval
    else if endpoint_is_stream (some r.listen_ep)
    then (if endpoint_is_stream (some r.upstream_ep) || is_file_or_builtin r.upstream_ep.proto
        then ok tt
        else err einval)
    else if endpoint_is_datagram (some r.listen_ep)
    then (if endpoint_is_datagram (some r.upstream_ep) || is_builtin r.upstream_ep.proto
        then ok tt
        else err einval)
    else err einval

-- The buffer of route_options_str: the text so far, and whether the function has returned.
pub record OptionsText : Type 0 where
  pub text : Bytes
  pub full : Bool

-- ADD_FMT: `item` goes behind a comma, and is cut where it does not fit.
abbrev pub add_fmt : ℕ → Bytes → OptionsText → OptionsText
add_fmt buflen item t =
    let piece = if length t.text == 0 then item else codes ", " ++ item in
    let room = buflen - length t.text in
    if t.full
    then t
    else if leb buflen (length t.text)
    then record { text = take (buflen - 1) t.text; full = true }
    else if leb room (length piece)
    then record { text = t.text ++ take (room - 1) piece; full = true }
    else record t { text = t.text ++ piece }

abbrev add_if : Bool → ℕ → Bytes → OptionsText → OptionsText
add_if test buflen item t = if test then add_fmt buflen item t else t

add_broadcast_reply : BroadcastReplyMode → ℕ → OptionsText → OptionsText
add_broadcast_reply off buflen t = t
add_broadcast_reply listen buflen t = add_fmt buflen (codes "broadcast_reply=listen") t
add_broadcast_reply upstream buflen t = add_fmt buflen (codes "broadcast_reply=upstream") t

-- The C string left in the buffer; with no room for a NUL the buffer is not touched.
unfoldable pub route_options_str : RouteOptions → ℕ → Option Bytes
unfolding add_broadcast_reply
route_options_str opts buflen =
    let idle = codes "idle_timeout=" ++ decimal opts.idle_timeout_sec in
    let connect = codes "connect_timeout=" ++ decimal opts.connect_timeout_sec in
    let bind = codes "bind_wait=" ++ decimal opts.bind_wait_sec in
    let t0 : OptionsText = record { text = []; full = false } in
    let t1 = add_if opts.proxy_v2 buflen (codes "proxy_v2=true") t0 in
    let t2 = add_if (not (opts.idle_timeout_sec == 60)) buflen idle t1 in
    let t3 = add_if (not (opts.connect_timeout_sec == 5)) buflen connect t2 in
    let t4 = add_if (not (opts.bind_wait_sec == 0)) buflen bind t3 in
    let t5 = add_if opts.keep_alive buflen (codes "keep_alive=true") t4 in
    let t6 = add_if opts.sni_sniff buflen (codes "sni_sniff=true") t5 in
    let t7 = add_broadcast_reply opts.broadcast_reply buflen t6 in
    if buflen == 0 then none else some t7.text
