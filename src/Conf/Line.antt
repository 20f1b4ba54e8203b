-- ===== src/Conf/Line.antt =====
-- The route options and parse_route_line of src/file_conf.c.
pub mod Valid
use tinyproxy.Base.{
  ℕ, ◌+◌, ◌<◌, Bool, true, false, ◌||◌, List, [], ◌∷◌, Option, none, some, ltb, ◌==◌, if◌then◌else◌,
  Bytes, codes, length, str_eq, Result, ok, err, einval, ◌>>=◌,
}
use tinyproxy.Text.{is_nil, trim, strchr, tokens}
use tinyproxy.Text.Numbers.{parse_positive_int}
use tinyproxy.Builtin.{none_builtin}
use tinyproxy.Endpoint.{EndpointProto, tcp, Endpoint}
use tinyproxy.Route.{
  BroadcastReplyMode, off, listen, upstream, RouteOptions, Route, route_default_idle_timeout_sec,
  route_default_connect_timeout_sec,
}
use tinyproxy.Conf.Address.{parse_proto, parse_endpoint}

-- MAX_ROUTE_FIELDS
abbrev pub max_route_fields : ℕ
max_route_fields = 32

unfoldable pub parse_broadcast_reply_mode : Bytes → Result BroadcastReplyMode
parse_broadcast_reply_mode value =
    if str_eq value (codes "listen")
    then ok listen
    else if str_eq value (codes "upstream")
    then ok upstream
    else err einval

-- PARSE_INT_OPT and PARSE_ENUM_OPT: the parser's error is returned.
abbrev set_ok {ℓ} : {A : Type ℓ} → (A → RouteOptions) → Result A → Result RouteOptions
set_ok f r = do v ← r; ok (f v)

-- An option `key=value`.
pub key_value_option : Bytes → Bytes → RouteOptions → Result RouteOptions
key_value_option key value opts =
    if is_nil key || is_nil value
    then err einval
    else if str_eq key (codes "idle_timeout")
    then set_ok (λ v. record opts { idle_timeout_sec = v }) (parse_positive_int value)
    else if str_eq key (codes "connect_timeout")
    then set_ok (λ v. record opts { connect_timeout_sec = v }) (parse_positive_int value)
    else if str_eq key (codes "bind_wait")
    then set_ok (λ v. record opts { bind_wait_sec = v }) (parse_positive_int value)
    else if str_eq key (codes "broadcast_reply")
    then set_ok (λ v. record opts { broadcast_reply = v }) (parse_broadcast_reply_mode value)
    else err einval

-- An option with no `=`.
pub flag_option : Bytes → RouteOptions → Result RouteOptions
flag_option tok opts =
    if str_eq tok (codes "proxy_v2")
    then ok (record opts { proxy_v2 = true })
    else if str_eq tok (codes "keep_alive")
    then ok (record opts { keep_alive = true })
    else if str_eq tok (codes "sni_sniff")
    then ok (record opts { sni_sniff = true })
    else if str_eq tok (codes "broadcast_reply")
    then ok (record opts { broadcast_reply = listen })
    else err einval

-- At the first `=`: the two sides, trimmed.
pub split_option : Bytes → Option (Bytes × Bytes) → RouteOptions → Result RouteOptions
split_option tok none opts = flag_option tok opts
split_option tok (some (key, value)) opts = key_value_option (trim key) (trim value) opts

-- One round of the loop of parse_route_options.
pub one_option : Bytes → RouteOptions → Result RouteOptions
one_option tok opts = if is_nil tok then err einval else split_option tok (strchr b'=' tok) opts

pub each_option : List Bytes → RouteOptions → Result RouteOptions
each_option [] opts = ok opts
each_option (tok ∷ toks) opts = do next ← one_option (trim tok) opts; each_option toks next

abbrev pub is_comma : ℕ → Bool
is_comma c = c == b','

unfoldable pub parse_route_options : Bytes → RouteOptions → Result RouteOptions
unfolding tokens trim strchr str_eq parse_positive_int each_option one_option split_option
    key_value_option flag_option parse_broadcast_reply_mode
parse_route_options s opts = if is_nil s then ok opts else each_option (tokens is_comma s) opts

-- memset, then route_options_set_defaults.
abbrev pub default_options : RouteOptions
default_options = record {
  proxy_v2 = false;
  keep_alive = false;
  sni_sniff = false;
  idle_timeout_sec = route_default_idle_timeout_sec;
  connect_timeout_sec = route_default_connect_timeout_sec;
  bind_wait_sec = 0;
  broadcast_reply = off;
}

-- The last loop: each field that is left holds options.
pub option_fields : List Bytes → RouteOptions → Result RouteOptions
option_fields [] opts = ok opts
option_fields (f ∷ fs) opts = do next ← parse_route_options f opts; option_fields fs next

-- Every failure of a callee becomes -EINVAL.
abbrev pub some_or_einval {ℓ} : {A : Type ℓ} → Option A → Result A
some_or_einval none = err einval
some_or_einval (some a) = ok a

abbrev pub as_einval {ℓ} : {A : Type ℓ} → Result A → Result A
as_einval (ok a) = ok a
as_einval (err e) = err einval

-- The fields from `pos` on; fewer than four are refused.
pub route_of_fields : List Bytes → Result Route
route_of_fields (lp ∷ le ∷ bp ∷ be ∷ rest) = do
  listen_proto ← some_or_einval (parse_proto lp)
  listen_ep ← some_or_einval (parse_endpoint listen_proto le)
  backend_proto ← some_or_einval (parse_proto bp)
  upstream_ep ← some_or_einval (parse_endpoint backend_proto be)
  opts ← as_einval (option_fields rest default_options)
  ok (record { listen_ep = listen_ep; upstream_ep = upstream_ep; opts = opts; line_no = 0 })
route_of_fields _ = err einval

-- `pos = 1` behind the word "listen".
pub after_listen : List Bytes → Result Route
after_listen [] = err einval
after_listen (f ∷ fs) = route_of_fields (if str_eq f (codes "listen") then fs else f ∷ fs)

-- The delimiters " \t\r\n".
abbrev pub is_blank : ℕ → Bool
is_blank c = c == b' ' || c == b'\t' || c == b'\r' || c == b'\n'

unfoldable pub parse_route_line : Bytes → Result Route
unfolding tokens str_eq parse_proto parse_endpoint after_listen route_of_fields option_fields
    parse_route_options
parse_route_line line =
    let fields = tokens is_blank line in
    if ltb max_route_fields (length fields) then err einval else after_listen fields
