-- ===== src/Conf/Line/Valid.antt =====
-- What parse_route_line of src/file_conf.c accepts.
use mathlib.Core.Path.{subst}
use tinyproxy.Base.{
  ℕ, ◌≤◌, ◌<◌, ◌≡◌, refl, ap, sym, ◌∙◌, Bool-cases, ltb, einval, ◌⊎◌, inl, inr, Bool, List, [], ◌∷◌,
  Option, none, some, arith, if◌then◌else◌, Bytes, length, Option-cases, Errno, Result, ok, err,
  >>=-eq-ok,
}
use tinyproxy.Text.{trim, strchr, tokens}
use tinyproxy.Text.Numbers.{int_max, parse_positive_int, parse_positive_int_bounds}
use tinyproxy.Endpoint.{Endpoint, EndpointProto}
use tinyproxy.Route.{RouteOptions, Route}
use tinyproxy.Conf.Address.{parse_proto, parse_endpoint}
use tinyproxy.Conf.Address.Valid.{IsEndpoint, parse_endpoint-IsEndpoint}
use tinyproxy.Conf.Line.{
  key_value_option, flag_option, split_option, one_option, each_option, parse_route_options,
  default_options, option_fields, some_or_einval, as_einval, route_of_fields, after_listen,
  parse_route_line, is_comma, is_blank, max_route_fields,
}

-- Timeouts of at least a second, and no number above INT_MAX.
pub record IsOptions (o : RouteOptions) : Type 0 where
  pub idle_some : 0 < o.idle_timeout_sec
  pub idle_fits : o.idle_timeout_sec ≤ int_max
  pub connect_some : 0 < o.connect_timeout_sec
  pub connect_fits : o.connect_timeout_sec ≤ int_max
  pub bind_wait_fits : o.bind_wait_sec ≤ int_max

pub record IsRoute (r : Route) : Type 0 where
  pub listen_valid : IsEndpoint r.listen_ep
  pub upstream_valid : IsEndpoint r.upstream_ep
  pub opts_valid : IsOptions r.opts

Number : Result ℕ → Type 0
Number r = ((e : Errno) × (r ≡ err e)) ⊎ ((n : ℕ) × (r ≡ ok n) × (0 < n) × (n ≤ int_max))

number_of : (r : Result ℕ) → ((n : ℕ) → r ≡ ok n → (0 < n) × (n ≤ int_max)) → Number r
unfolding Number
number_of (err e) h = inl (e, refl)
number_of (ok n) h = let (p, q) = h n refl in inr (n, refl, p, q)

key_value-IsOptions :
    (key value : Bytes) (o p : RouteOptions)
    → IsOptions o
    → key_value_option key value o ≡ ok p
    → IsOptions p
unfolding key_value_option Number
key_value-IsOptions key value o p v e =
    let number = number_of (parse_positive_int value) (λ n h. parse_positive_int_bounds value h) in
    ground arith

flag-IsOptions :
    (tok : Bytes) (o p : RouteOptions) → IsOptions o → flag_option tok o ≡ ok p → IsOptions p
unfolding flag_option
flag-IsOptions tok o p v e = ground arith

split-IsOptions :
    (tok : Bytes) (parts : Option (Bytes × Bytes)) (o p : RouteOptions)
    → IsOptions o
    → split_option tok parts o ≡ ok p
    → IsOptions p
unfolding split_option
split-IsOptions tok none o p v e = flag-IsOptions tok o p v e
split-IsOptions tok (some (k, w)) o p v e = key_value-IsOptions (trim k) (trim w) o p v e

one-IsOptions :
    (tok : Bytes) (o p : RouteOptions) → IsOptions o → one_option tok o ≡ ok p → IsOptions p
unfolding one_option
one-IsOptions [] o p v e = cc
one-IsOptions (c ∷ cs) o p v e = split-IsOptions (c ∷ cs) (strchr b'=' (c ∷ cs)) o p v e

each-IsOptions :
    (toks : List Bytes) (o p : RouteOptions) → IsOptions o → each_option toks o ≡ ok p → IsOptions p
unfolding each_option
each-IsOptions [] o p v e = ground arith
each-IsOptions (t ∷ toks) o p v e =
    let (q, first, rest) = >>=-eq-ok (one_option (trim t) o) _ e in
    each-IsOptions toks q p (one-IsOptions (trim t) o q v first) rest

pub parse_route_options-IsOptions :
    (s : Bytes) (o p : RouteOptions) → IsOptions o → parse_route_options s o ≡ ok p → IsOptions p
unfolding parse_route_options
parse_route_options-IsOptions [] o p v e = ground arith
parse_route_options-IsOptions (c ∷ cs) o p v e = each-IsOptions (tokens is_comma (c ∷ cs)) o p v e

option_fields-IsOptions :
    (fs : List Bytes) (o p : RouteOptions) → IsOptions o → option_fields fs o ≡ ok p → IsOptions p
unfolding option_fields
option_fields-IsOptions [] o p v e = ground arith
option_fields-IsOptions (f ∷ fs) o p v e =
    let (q, first, rest) = >>=-eq-ok (parse_route_options f o) _ e in
    option_fields-IsOptions fs q p (parse_route_options-IsOptions f o q v first) rest

route_field {ℓ} : {A : Type ℓ} (f : Route → A) {q r : Route} → ok q ≡ ok r → f q ≡ f r
route_field f {q} {r} e = let same : q ≡ r = cc e in ap f same

endpoint-valid :
    (proto : EndpointProto) (s : Bytes) (ep : Endpoint)
    → some_or_einval (parse_endpoint proto s) ≡ ok ep
    → IsEndpoint ep
endpoint-valid proto s ep h = elim (Option-cases (parse_endpoint proto s)) [
  | inl n ↦ cc (h, ap some_or_einval n)
  | inr (q, n) ↦
      let same : q ≡ ep = cc (h, ap some_or_einval n) in
      (parse_endpoint-IsEndpoint proto s ep (n ∙ ap some same)).1
]

as_einval-ok {ℓ} : {A : Type ℓ} (r : Result A) (a : A) → as_einval r ≡ ok a → r ≡ ok a
as_einval-ok (ok b) a h = h
as_einval-ok (err e) a h = cc

default-IsOptions : IsOptions default_options
default-IsOptions = omega arith

route_of_fields-IsRoute :
    (fs : List Bytes) (r : Route) → route_of_fields fs ≡ ok r → IsRoute r × (r.line_no ≡ 0)
unfolding route_of_fields
route_of_fields-IsRoute (lp ∷ le ∷ bp ∷ be ∷ rest) r e =
    let (lproto, e1, k1) = >>=-eq-ok (some_or_einval (parse_proto lp)) _ e in
    let (lep, e2, k2) = >>=-eq-ok (some_or_einval (parse_endpoint lproto le)) _ k1 in
    let (bproto, e3, k3) = >>=-eq-ok (some_or_einval (parse_proto bp)) _ k2 in
    let (bep, e4, k4) = >>=-eq-ok (some_or_einval (parse_endpoint bproto be)) _ k3 in
    let (o, e5, k5) = >>=-eq-ok (as_einval (option_fields rest default_options)) _ k4 in
    let opts =
      option_fields-IsOptions rest default_options o default-IsOptions (as_einval-ok _ o e5) in
    (
      record {
        listen_valid =
            subst IsEndpoint (route_field (λ q. q.listen_ep) k5) (endpoint-valid lproto le lep e2);
        upstream_valid =
            subst IsEndpoint (route_field (λ q. q.upstream_ep) k5)
              (endpoint-valid bproto be bep e4);
        opts_valid = subst IsOptions (route_field (λ q. q.opts) k5) opts;
      },
      sym (route_field (λ q. q.line_no) k5),
    )
route_of_fields-IsRoute _ r e = cc

after_listen-IsRoute :
    (fs : List Bytes) (r : Route) → after_listen fs ≡ ok r → IsRoute r × (r.line_no ≡ 0)
unfolding after_listen
after_listen-IsRoute [] r e = cc
after_listen-IsRoute (f ∷ fs) r e = route_of_fields-IsRoute _ r e

-- An accepted line gives a route whose endpoints and options are valid: kinds that fit the
-- protocols, hosts, ports and paths in range, timeouts from 1 to INT_MAX seconds. Its line number
-- is 0, since the route is cleared first.
pub parse_route_line-IsRoute :
    (line : Bytes) (r : Route) → parse_route_line line ≡ ok r → IsRoute r × (r.line_no ≡ 0)
unfolding parse_route_line
parse_route_line-IsRoute line r e = elim (Bool-cases (ltb max_route_fields (length fields))) [
  | inl long ↦ cc (e, ap cut long)
  | inr short ↦ after_listen-IsRoute fields r (sym (ap cut short) ∙ e)
]
  where
    fields : List Bytes
    fields = tokens is_blank line

    cut : Bool → Result Route
    cut b = if b then err einval else after_listen fields
