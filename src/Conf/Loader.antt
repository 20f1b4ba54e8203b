-- ===== src/Conf/Loader.antt =====
-- find_conflicting_route and load_routes_from_text of src/file_conf.c.
pub mod Lines
pub mod Given
pub mod Config
use tinyproxy.Base.{
  ℕ, zero, suc, ◌+◌, ◌-◌, ◌*◌, ◌/◌, ◌%◌, ◌^◌, ◌<◌, Bool, true, false, not, ◌&&◌, ◌||◌, List, [],
  ◌∷◌, ◌++◌, Option, none, some, ltb, leb, ◌==◌, if◌then◌else◌, Bytes, length, str_eq, Result, ok,
  err, einval, e2big, eoverflow, enomem, eaddrinuse, ◌>>=◌,
}
use tinyproxy.Text.{is_nil, c_string, trim, strchr}
use tinyproxy.Endpoint.{EndpointProto, tcp, udp, unix_stream, unix_dgram, file, builtin, Endpoint}
use tinyproxy.Route.{Route}
use tinyproxy.Conf.Line.{parse_route_line}

-- The switch, for two endpoints of one protocol.
abbrev pub same_address : EndpointProto → Endpoint → Endpoint → Bool
same_address tcp a b = str_eq a.host b.host && a.port == b.port
same_address udp a b = str_eq a.host b.host && a.port == b.port
same_address unix_stream a b = str_eq a.path b.path
same_address unix_dgram a b = str_eq a.path b.path
same_address _ a b = false

abbrev pub proto_number : EndpointProto → ℕ
proto_number tcp = 0
proto_number udp = 1
proto_number unix_stream = 2
proto_number unix_dgram = 3
proto_number file = 4
proto_number builtin = 5

unfoldable pub same_listen_endpoint : Endpoint → Endpoint → Bool
same_listen_endpoint a b =
    if proto_number a.proto == proto_number b.proto then same_address a.proto a b else false

-- The index of the first route that listens where `new_route` does; `none` is -1.
find_from : ℕ → List Route → Route → Option ℕ
find_from i [] new_route = none
find_from i (r ∷ rs) new_route =
    if same_listen_endpoint r.listen_ep new_route.listen_ep
    then some i
    else find_from (i + 1) rs new_route

unfoldable pub find_conflicting_route : List Route → Route → Option ℕ
unfolding find_from same_listen_endpoint
find_conflicting_route routes new_route = find_from 0 routes new_route

-- MAX_LINE_LEN
abbrev pub max_line_len : ℕ
max_line_len = 512

-- `count` is the length of `routes`.
pub record Loader : Type 0 where
  pub routes : List Route
  pub cap : ℕ
  pub line_no : ℕ

-- sizeof(struct route), and whether realloc to a number of bytes succeeds.
pub record Memory : Type 0 where
  pub sizeof_route : ℕ
  pub realloc_ok : ℕ → Bool

-- The line at the front and what follows its newline: `memchr` and the new `pos`.
abbrev pub line_of : Bytes → Option (Bytes × Bytes) → Bytes × Bytes
line_of bytes none = (bytes, [])
line_of bytes (some (line, rest)) = (line, rest)

unfoldable pub next_line : Bytes → Bytes × Bytes
unfolding strchr
next_line bytes = line_of bytes (strchr b'\n' bytes)

-- A carriage return at the end is cut.
unfoldable pub strip_cr : Bytes → Bytes
strip_cr [] = []
strip_cr (c ∷ []) = if c == b'\r' then [] else c ∷ []
strip_cr (c ∷ d ∷ cs) = c ∷ strip_cr (d ∷ cs)

module _ (mem : Memory) where
  -- `if (count == cap)`: room for one more.
  pub grow : Loader → Result Loader
  grow st =
      let new_cap = if st.cap == 0 then 8 else st.cap * 2 in
      if length st.routes == st.cap
      then (if ltb ((2 ^ 64 - 1) / mem.sizeof_route) new_cap
          then err eoverflow
          else if not (mem.realloc_ok (new_cap * mem.sizeof_route))
          then err enomem
          else ok (record st { cap = new_cap }))
      else ok st

  abbrev pub no_conflict : Option ℕ → Loader → Result Loader
  no_conflict none st = ok st
  no_conflict (some i) st = err eaddrinuse

  abbrev pub or_einval {ℓ} : {A : Type ℓ} → Result A → Result A
  or_einval (ok a) = ok a
  or_einval (err e) = err einval

  -- A line that is not empty and no comment.
  pub add_route : Bytes → Loader → Result Loader
  add_route line st = do
    grown ← grow st
    parsed ← or_einval (parse_route_line line)
    let r = record parsed { line_no = st.line_no }
    no_conflict (find_conflicting_route st.routes r) (record grown { routes = st.routes ++ r ∷ [] })

  -- Inline comments.
  pub before_comment : Bytes → Option (Bytes × Bytes) → Loader → Result Loader
  before_comment line none st = add_route line st
  before_comment line (some (text, comment)) st =
      if is_nil (trim text) then ok st else add_route (trim text) st

  pub trimmed_line : Bytes → Loader → Result Loader
  trimmed_line [] st = ok st
  trimmed_line (c ∷ cs) st =
      if c == b'#' then ok st else before_comment (c ∷ cs) (strchr b'#' (c ∷ cs)) st

  -- The body of the loop, on the bytes of one line.
  pub one_line : Bytes → Loader → Result Loader
  unfolding trimmed_line before_comment add_route grow
  one_line raw st =
      let counted = record st { line_no = (st.line_no + 1) % 2 ^ 32 } in
      let text = strip_cr raw in
      if leb max_line_len (length text)
      then err e2big
      else trimmed_line (trim (c_string text)) counted

  -- `while (pos < data_len)`, on what is left of the text; `none` is a loop that has used up
  -- its rounds.
  pub load_loop : ℕ → Bytes → Loader → Option (Result Loader)
  load_loop zero bytes st = none
  load_loop (suc rounds) [] st = some (ok st)
  load_loop (suc rounds) (c ∷ cs) st = elim (one_line (next_line (c ∷ cs)).0 st) [
    | ok st' ↦ load_loop rounds (next_line (c ∷ cs)).1 st'
    | err e ↦ some (err e)
  ]

  abbrev pub start : Loader
  start = record { routes = []; cap = 0; line_no = 0 }

  abbrev pub loaded : Result Loader → Result (List Route)
  loaded (ok st) = ok st.routes
  loaded (err e) = err e

  abbrev pub finish : Option (Result Loader) → Option (Result (List Route))
  finish none = none
  finish (some r) = some (loaded r)

  unfoldable pub load_routes_from_text : Bytes → Option (Result (List Route))
  unfolding load_loop one_line next_line find_conflicting_route parse_route_line c_string strip_cr
  load_routes_from_text bytes = finish (load_loop (suc (length bytes)) bytes start)
