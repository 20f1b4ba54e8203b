-- ===== src/Program/CommandLine.antt =====
-- The command line in main of src/tinyproxy.c: the loop over getopt, and the checks behind it.
pub mod Selected
pub mod RoundTrip
use tinyproxy.Base.{
  ℕ, ◌-◌, ◌*◌, ◌==◌, Bool, true, false, not, ◌&&◌, ◌||◌, List, [], ◌∷◌, ◌++◌, Option, none, some,
  ltb, if◌then◌else◌, Bytes, length,
}
use tinyproxy.Text.{is_nil}
use tinyproxy.Text.Numbers.{strtoul, int_max}

-- What getopt of libc returns on the string "c:L:w:h:v": the letter, or '?' for one that is unknown or
-- has no argument, with `optarg`.
pub record Opt : Type 0 where
  pub letter : ℕ
  pub optarg : Option Bytes

abbrev pub unknown_opt : Opt
unknown_opt = record { letter = b'?'; optarg = none }

-- The letters with a colon behind them in the string.
abbrev pub has_argument : ℕ → Bool
has_argument c = c == b'c' || c == b'L' || c == b'w' || c == b'h'

-- The options of one element behind its dash, and the last one if its argument is the next element.
abbrev pub before_others : Opt → List Opt × Option ℕ → List Opt × Option ℕ
before_others o (os, next) = (o ∷ os, next)

unfoldable pub cluster : Bytes → List Opt × Option ℕ
cluster [] = ([], none)
cluster (c ∷ cs) =
    let rest = cluster cs in
    if has_argument c
    then (if is_nil cs then ([], some c) else (record { letter = c; optarg = some cs } ∷ [], none))
    else if c == b'v'
    then before_others (record { letter = c; optarg = none }) rest
    else before_others unknown_opt rest

pub data Element : Type 0 where
  options : Bytes → Element
  operand end_of_options : Element

abbrev pub element : Bytes → Element
element [] = operand
element (c ∷ []) = operand
element (c ∷ d ∷ cs) =
    if not (c == b'-')
    then operand
    else if d == b'-' && is_nil cs
    then end_of_options
    else options (d ∷ cs)

abbrev pub letters_of : Element → List Opt × Option ℕ
unfolding cluster
letters_of (options cs) = cluster cs
letters_of _ = ([], none)

abbrev pub join :
    Bytes → List Bytes → Element → List Opt → List Opt × List Bytes → List Opt × List Bytes
join a rest (options cs) os (found, operands) = (os ++ found, operands)
join a rest operand os (found, operands) = (found, a ∷ operands)
join a rest end_of_options os (found, operands) = ([], rest)

abbrev pub with_argument : ℕ → Bytes → List Opt × List Bytes → List Opt × List Bytes
with_argument c a (rest, operands) = (record { letter = c; optarg = some a } ∷ rest, operands)

-- All that getopt gives for the elements behind `argv[0]`, and the operands, which it moves to the
-- end: `optind != argc` exactly if there is one. `waiting` is an option that takes the next element.
getopt_from : Option ℕ → List Bytes → List Opt × List Bytes
unfolding cluster
getopt_from none [] = ([], [])
getopt_from (some c) [] = (unknown_opt ∷ [], [])
getopt_from none (a ∷ rest) =
    let (os, waiting) = letters_of (element a) in
    join a rest (element a) os (getopt_from waiting rest)
getopt_from (some c) (a ∷ rest) = with_argument c a (getopt_from none rest)

unfoldable pub getopt : List Bytes → List Opt × List Bytes
unfolding getopt_from
getopt argv = getopt_from none argv

-- The variables of main that the loop sets; `inline_route_cap` is the size of the array.
pub record Options : Type 0 where
  pub worker_count : ℕ
  pub conf_path : Option Bytes
  pub inline_routes : List Bytes
  pub inline_route_cap : ℕ

abbrev pub defaults : Options
defaults = record { worker_count = 1; conf_path = none; inline_routes = []; inline_route_cap = 0 }

-- main returns the exit code at once, with the array freed or not; or it goes on.
pub data Parsed : Type 0 where
  exits : ℕ → Bool → Parsed
  proceeds : Options → Parsed

-- compat_cpu_count of src/compat_cpu.c; `n` is what sysconf gives, 0 for what is below.
unfoldable pub compat_cpu_count : ℕ → ℕ
compat_cpu_count n = if ltb n 1 || ltb int_max n then 1 else n

-- What main asks of the system here: the number of processors, and whether realloc to a number of
-- elements succeeds.
pub record OptionCalls : Type 0 where
  pub sysconf : ℕ
  pub realloc_ok : ℕ → Bool

abbrev pub is_empty_arg : Option Bytes → Bool
is_empty_arg none = true
is_empty_arg (some a) = is_nil a

abbrev pub is_none {ℓ} : {A : Type ℓ} → Option A → Bool
is_none none = true
is_none (some a) = false

abbrev pub arg : Option Bytes → Bytes
arg none = []
arg (some a) = a

abbrev pub onwards : Parsed → (Options → Parsed) → Parsed
onwards (exits code freed) next = exits code freed
onwards (proceeds st) next = next st

-- The checks behind the loop.
unfoldable pub check_options : List Bytes → Options → Parsed
check_options operands st =
    if is_none st.conf_path && is_nil st.inline_routes
    then exits 0 true
    else if not (is_none st.conf_path) && not (is_nil st.inline_routes)
    then exits 2 true
    else if not (is_nil operands)
    then exits 2 false
    else proceeds st

module _ (calls : OptionCalls) where
  -- case 'w', where `end == optarg` leaves bytes behind `end`.
  unfoldable pub worker_option : Bytes → Options → Parsed
  unfolding strtoul compat_cpu_count
  worker_option optarg st =
      let n = strtoul optarg in
      if n.out_of_range || not (is_nil n.end) || ltb int_max n.result
      then exits 2 false
      else if n.result == 0
      then proceeds (record st { worker_count = compat_cpu_count calls.sysconf - 1 })
      else proceeds (record st { worker_count = n.result })

  -- case 'L'
  unfoldable pub route_option : Bytes → Options → Parsed
  route_option optarg st =
      let new_cap = if st.inline_route_cap == 0 then 4 else st.inline_route_cap * 2 in
      let added = st.inline_routes ++ optarg ∷ [] in
      if length st.inline_routes == st.inline_route_cap
      then (if calls.realloc_ok new_cap
          then proceeds (record st { inline_routes = added; inline_route_cap = new_cap })
          else exits 1 true)
      else proceeds (record st { inline_routes = added })

  -- The switch; the letters come from getopt.
  unfoldable pub one_opt : Opt → Options → Parsed
  unfolding worker_option route_option
  one_opt o st =
      if o.letter == b'w'
      then (if is_empty_arg o.optarg then exits 2 false else worker_option (arg o.optarg) st)
      else if o.letter == b'c'
      then (if is_empty_arg o.optarg
          then exits 2 true
          else proceeds (record st { conf_path = o.optarg }))
      else if o.letter == b'L'
      then (if is_empty_arg o.optarg then exits 2 true else route_option (arg o.optarg) st)
      else if o.letter == b'h'
      then exits 0 true
      else if o.letter == b'v'
      then exits 0 true
      else exits 2 true

  unfoldable pub option_loop : List Opt → Options → Parsed
  unfolding one_opt
  option_loop [] st = proceeds st
  option_loop (o ∷ os) st = onwards (one_opt o st) (option_loop os)

  abbrev pub parsed : List Opt × List Bytes → Parsed
  parsed (os, operands) = onwards (option_loop os defaults) (check_options operands)

  unfoldable pub parse_options : List Bytes → Parsed
  unfolding getopt option_loop check_options
  parse_options argv = parsed (getopt argv)
