-- ===== src/Program/Tests.antt =====
-- Runs of src/tinyproxy.c, and its theorems at concrete inputs.
use tinyproxy.Base.{
  ◌≡◌, ◌≢◌, refl, true, List, [], ◌∷◌, none, some, arith, Bytes, codes, All, ok, err, enomem,
}
use tinyproxy.Conf.Address.{split_host_port}
use tinyproxy.Text.Numbers.{parse_port}
use tinyproxy.Text.Decimal.{scan_digits}
use tinyproxy.Route.{Route, validate_route}
use tinyproxy.Program.Exit.{Started, main-serves}
use tinyproxy.Worker.{byte_sent}
use tinyproxy.Bind.{bound}
use tinyproxy.Datagram.Listener.{ListenCalls}
use tinyproxy.Datagram.Lifecycle.{no_stat}
use tinyproxy.Stream.{StreamCalls}
use tinyproxy.Runtime.{RouteCtx}
use tinyproxy.Program.{main, ended_from}
use tinyproxy.Program.Start.{
  load_routes, at_first, ProgramCalls, alloc_routes, alloc_route_ctxs, new_base, setup_signals,
  init_pool, start_pool, start, stop_listeners, stop_pool, join_pool, free_ctx, free_pool,
  free_signals, free_route_ctxs, free_base, free_routes,
}
use tinyproxy.Program.CommandLine.{Options, OptionCalls, exits, proceeds, parse_options}
use tinyproxy.Program.CommandLine.RoundTrip.{command_line, Reads, parse_options-command_line}
use tinyproxy.Program.CommandLine.Selected.{IsSelected, parse_options-IsSelected}
use tinyproxy.Program.Order.{Releases}
use tinyproxy.Program.Order.Releases.{main-Releases}

abbrev option_calls : OptionCalls
option_calls = record { sysconf = 1; realloc_ok = λ n. true }

-- `-h` has a colon in the string of options.
help_without_argument : parse_options option_calls (codes "-h" ∷ []) ≡ exits 2 true
unfolding parse_options
help_without_argument = refl

-- One processor leaves no worker.
auto_workers :
    parse_options option_calls (codes "-w0" ∷ codes "-c" ∷ codes "x" ∷ [])
    ≡ proceeds (record {
      worker_count = 0;
      conf_path = some (codes "x");
      inline_routes = [];
      inline_route_cap = 0;
    })
unfolding parse_options scan_digits
auto_workers = refl

-- strtoul negates: this is 1.
negative_workers :
    parse_options option_calls (codes "-w-18446744073709551615" ∷ codes "-cx" ∷ [])
    ≡ proceeds (record {
      worker_count = 1;
      conf_path = some (codes "x");
      inline_routes = [];
      inline_route_cap = 0;
    })
unfolding parse_options scan_digits
negative_workers = refl

abbrev two_routes : List Bytes
two_routes = codes "tcp 127.0.0.1:80 tcp 10.0.0.2:80" ∷ codes "udp :53 udp 10.0.0.3:53" ∷ []

parse_options-command_line_example :
    Reads 3 two_routes (parse_options option_calls (command_line 3 two_routes))
parse_options-command_line_example =
    parse_options-command_line option_calls (λ n. refl) 3 two_routes (omega arith) (omega arith)
      (λ e. cc) ((λ e. cc), ((λ e. cc), tt))

abbrev auto_state : Options
auto_state = record {
  worker_count = 0;
  conf_path = some (codes "x");
  inline_routes = [];
  inline_route_cap = 0;
}

parse_options-IsSelected_example : IsSelected auto_state
parse_options-IsSelected_example =
    parse_options-IsSelected option_calls (codes "-w0" ∷ codes "-c" ∷ codes "x" ∷ []) auto_state
      auto_workers

abbrev stream_calls : StreamCalls
stream_calls = record {
  resolve = none;
  unlink = none;
  socket = ok 6;
  reuseable = none;
  nonblocking = none;
  bind = λ i. bound;
  bind_unix = none;
  listen = none;
  evconnlistener_new = none;
}

abbrev datagram_calls : ListenCalls
datagram_calls = record {
  raw_socket = ok 6;
  hdrincl = none;
  mutex_init = none;
  mkdir = none;
  resolve = none;
  unlink = none;
  socket = err enomem;
  broadcast = none;
  v6only = none;
  nonblocking = none;
  reuseaddr = none;
  bind = λ i. bound;
  bind_unix = none;
  getsockname = ok [];
  event_new = true;
  event_add = true;
}

-- The second route gets no socket.
abbrev calls : ProgramCalls
calls = record {
  options = option_calls;
  memory = record { sizeof_route = 800; realloc_ok = λ n. true };
  file = record {
    fopen = none;
    seek_end = none;
    ftell = ok 0;
    seek_set = none;
    malloc = true;
    fread = [];
    ferror = none;
  };
  routes_calloc = true;
  strdup = λ i. true;
  ctxs_calloc = true;
  base_new = true;
  signals = record { new_sigint = true; new_sigterm = true; add_sigint = true; add_sigterm = true };
  pool_calloc = true;
  pool_resources = λ i. record {
    base_new = true;
    mutex_init = none;
    socketpair = none;
    event_new = true;
    event_add = true;
  };
  pool_create = λ i. none;
  sent = byte_sent;
  stat = λ i. no_stat;
  stream_calls = λ i. stream_calls;
  datagram_calls = λ i. datagram_calls;
  dispatch_ok = true;
  work = λ i c. c;
  work_on = λ i c. c;
  work_pool = λ pool. pool;
  finished = λ id. 0;
}

abbrev argv : List Bytes
argv =
    codes "-L" ∷ codes "tcp 127.0.0.1:80 tcp 10.0.0.2:80" ∷ codes "-Ludp :53 udp 10.0.0.3:53" ∷ []

second_fails :
    (main calls argv).calls
    ≡ alloc_routes
      ∷ alloc_route_ctxs
      ∷ new_base
      ∷ setup_signals
      ∷ init_pool
      ∷ start_pool
      ∷ start 0
      ∷ stop_listeners 0
      ∷ stop_pool
      ∷ join_pool
      ∷ free_ctx 0
      ∷ free_pool
      ∷ free_signals
      ∷ free_route_ctxs
      ∷ free_base
      ∷ free_routes
      ∷ []
unfolding main split_host_port parse_port scan_digits
second_fails = refl

main-Releases_example : Releases (main calls argv).calls
main-Releases_example = main-Releases calls argv

abbrev one_route : List Bytes
one_route = codes "-L" ∷ codes "tcp 127.0.0.1:80 tcp 10.0.0.2:80" ∷ []

abbrev one_state : Options
one_state = record {
  worker_count = 1;
  conf_path = none;
  inline_routes = codes "tcp 127.0.0.1:80 tcp 10.0.0.2:80" ∷ [];
  inline_route_cap = 4;
}

one_parsed : parse_options option_calls one_route ≡ proceeds one_state
unfolding parse_options
one_parsed = refl

serves : (main calls one_route).exit_code ≡ 0
unfolding main split_host_port parse_port scan_digits
serves = refl

main-serves_example :
    (rs : List Route) × ((load_routes calls one_state at_first).0 ≡ ok rs)
    × (rs ≢ [])
    × All (λ r. validate_route (some r) ≡ ok tt) rs
    × ((cs : List RouteCtx) × Started calls 0 rs cs
        × ((main calls one_route).route_effects ≡ ended_from calls 0 cs))
    × (calls.dispatch_ok ≡ true)
main-serves_example = main-serves calls one_route one_state one_parsed serves
