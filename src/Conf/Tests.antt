-- ===== src/Conf/Tests.antt =====
-- Runs of the configuration parser, and the theorems at concrete inputs.
use tinyproxy.Base.{
  ◌≡◌, refl, inl, true, false, [], ◌∷◌, some, arith, Bytes, codes, length, ok, err, einval,
  eaddrinuse,
}
use tinyproxy.Text.Decimal.{decimal, scan_digits}
use tinyproxy.Text.Numbers.{parse_port}
use tinyproxy.Endpoint.{
  tcp, Endpoint, EndpointProto, EndpointKind, blank, endpoint_to_string, endpoint_text,
}
use tinyproxy.Route.{Route}
use tinyproxy.Conf.Address.{parse_endpoint, split_host_port}
use tinyproxy.Conf.Address.RoundTrip.{inet_of, parse_endpoint-endpoint_to_string}
use tinyproxy.Conf.Line.{default_options, parse_route_line}
use tinyproxy.Conf.Line.Valid.{IsRoute, parse_route_line-IsRoute}
use tinyproxy.Conf.Loader.{Memory, load_routes_from_text, loaded, start}
use tinyproxy.Conf.Loader.Lines.{file_lines, each_line, load_routes-lines}
use tinyproxy.Conf.Loader.Given.{Gives}
use tinyproxy.Conf.Loader.Config.{IsConfig, load_routes-IsConfig}

abbrev mem : Memory
mem = record { sizeof_route = 816; realloc_ok = λ n. true }

abbrev web : Route
web = record {
  listen_ep = inet_of tcp false (codes "0.0.0.0") 80;
  upstream_ep = inet_of tcp true (codes "::1") 8080;
  opts = record default_options { proxy_v2 = true; idle_timeout_sec = 7 };
  line_no = 0;
}

web_line : parse_route_line (codes "listen tcp :80 tcp [::1]:8080 proxy_v2,idle_timeout=7") ≡ ok web
unfolding parse_route_line scan_digits split_host_port parse_port
web_line = refl

bad_lines :
    (parse_route_line (codes "tcp :0 tcp h:1") ≡ err einval)
    × (parse_route_line (codes "tcp ::1:80 tcp h:1") ≡ err einval)
    × (parse_route_line (codes "tcp :80 tcp h:1 idle_timeout=0") ≡ err einval)
    × (parse_route_line (codes "listen tcp :80 tcp") ≡ err einval)
unfolding parse_route_line scan_digits split_host_port parse_port
bad_lines = (refl, refl, refl, refl)

-- strtoul takes a sign, so a negative port may be accepted.
negative_port : parse_port (codes "-18446744073709551536") ≡ some 80
unfolding parse_port scan_digits
negative_port = refl

abbrev config : Bytes
config =
    codes "# demo\nlisten tcp :80 tcp [::1]:8080 proxy_v2,idle_timeout=7\r\n\ntcp :81 file /x # end"

abbrev static : Route
static = record {
  listen_ep = inet_of tcp false (codes "0.0.0.0") 81;
  upstream_ep = parsed_file;
  opts = default_options;
  line_no = 4;
}
  where
    parsed_file : Endpoint
    parsed_file = record (blank EndpointProto.file) {
      kind = EndpointKind.file_kind;
      path = codes "/x";
    }

config_loads :
    load_routes_from_text mem config ≡ some (ok (record web { line_no = 2 } ∷ static ∷ []))
unfolding load_routes_from_text scan_digits split_host_port parse_port
config_loads = refl

conflict :
    load_routes_from_text mem (codes "tcp :80 tcp a:1\ntcp 0.0.0.0:80 tcp b:1")
    ≡ some (err eaddrinuse)
unfolding load_routes_from_text scan_digits split_host_port parse_port
conflict = refl

parse_endpoint-endpoint_to_string_example :
    (text : Bytes) × (endpoint_to_string (some (inet_of tcp true (codes "::1") 8080)) 128 ≡ ok text)
    × (parse_endpoint tcp text ≡ some (inet_of tcp true (codes "::1") 8080))
unfolding endpoint_text decimal
parse_endpoint-endpoint_to_string_example =
    parse_endpoint-endpoint_to_string tcp true (codes "::1") 8080 128 (inl refl)
      (refl, (refl, (refl, tt))) (omega arith) (omega arith) (omega arith) (omega arith)

parse_route_line-IsRoute_example : IsRoute web × (web.line_no ≡ 0)
parse_route_line-IsRoute_example =
    parse_route_line-IsRoute (codes "listen tcp :80 tcp [::1]:8080 proxy_v2,idle_timeout=7") web
      web_line

load_routes-lines_example :
    load_routes_from_text mem config
    ≡ some (loaded mem (each_line mem (file_lines config) (start mem)))
load_routes-lines_example = load_routes-lines mem config

load_routes-IsConfig_example :
    IsConfig (length (file_lines config)) (record web { line_no = 2 } ∷ static ∷ [])
    × Gives 0 (file_lines config) (record web { line_no = 2 } ∷ static ∷ [])
unfolding file_lines
load_routes-IsConfig_example =
    load_routes-IsConfig mem config (record web { line_no = 2 } ∷ static ∷ []) (omega arith)
      config_loads
