-- ===== src/Program/CommandLine/RoundTrip.antt =====
-- The command line that names a number of workers and inline routes, and main of src/tinyproxy.c.
use tinyproxy.Base.{
  ℕ, ◌*◌, ◌==◌, ◌≤◌, ◌<◌, ◌≡◌, ◌≢◌, refl, ap, ◌∙◌, true, false, List, [], ◌∷◌, ◌++◌, append_assoc,
  append-nil, none, some, ltb, if◌then◌else◌, arith, Bytes, codes, All, length, inl, inr,
  Bool-cases,
}
use tinyproxy.Text.{is_nil}
use tinyproxy.Text.Decimal.{decimal, decimal-BeginsWithDigit}
use tinyproxy.Text.Numbers.{strtoul-decimal, int_max}
use tinyproxy.Program.CommandLine.{
  Opt, getopt, defaults, Parsed, proceeds, OptionCalls, worker_option, route_option, one_opt,
  parsed, option_loop, check_options, parse_options,
}

abbrev pub route_args : List Bytes → List Bytes
route_args [] = []
route_args (r ∷ rs) = codes "-L" ∷ r ∷ route_args rs

abbrev pub command_line : ℕ → List Bytes → List Bytes
command_line workers routes = codes "-w" ∷ decimal workers ∷ route_args routes

route_opts : List Bytes → List Opt
route_opts [] = []
route_opts (r ∷ rs) = record { letter = b'L'; optarg = some r } ∷ route_opts rs

getopt-route_args : (rs : List Bytes) → getopt (route_args rs) ≡ (route_opts rs, [])
unfolding getopt route_opts
getopt-route_args [] = refl
getopt-route_args (r ∷ rs) = rw (getopt-route_args rs) refl

getopt-command_line :
    (n : ℕ) (rs : List Bytes)
    → getopt (command_line n rs)
      ≡ (record { letter = b'w'; optarg = some (decimal n) } ∷ route_opts rs, [])
unfolding getopt
getopt-command_line n rs = rw (getopt-route_args rs) refl

-- The variables with so many workers and with these routes, whatever the size of the array.
abbrev pub Reads : ℕ → List Bytes → Parsed → Type 0
Reads n rs p =
    (cap : ℕ) × (p
      ≡ proceeds (record {
        worker_count = n;
        conf_path = none;
        inline_routes = rs;
        inline_route_cap = cap;
      }))

module _ (calls : OptionCalls) (memory : (n : ℕ) → calls.realloc_ok n ≡ true) where
  route_opt-Reads :
      (r : Bytes) (n cap : ℕ) (rs : List Bytes)
      → r ≢ []
      → Reads n (rs ++ r ∷ []) (
          one_opt calls
            (record { letter = b'L'; optarg = some r })
            (record {
              worker_count = n;
              conf_path = none;
              inline_routes = rs;
              inline_route_cap = cap;
            }))
  unfolding one_opt route_option
  route_opt-Reads [] n cap rs some_line = absurd (some_line refl)
  route_opt-Reads (c ∷ cs) n cap rs some_line = elim (Bool-cases (length rs == cap)) [
    | inl full ↦ rw (full, memory (if cap == 0 then 4 else cap * 2)) (_, refl)
    | inr room ↦ rw room (cap, refl)
  ]

  route_opts-Reads :
      (lines : List Bytes) (n cap : ℕ) (rs : List Bytes)
      → All (λ line. line ≢ []) lines
      → Reads n (rs ++ lines) (
          option_loop calls (route_opts lines) (record {
            worker_count = n;
            conf_path = none;
            inline_routes = rs;
            inline_route_cap = cap;
          }))
  unfolding option_loop route_opts
  route_opts-Reads [] n cap rs named = rw (append-nil rs) (cap, refl)
  route_opts-Reads (l ∷ ls) n cap rs named =
      let (cap', added) = route_opt-Reads l n cap rs named.0 in
      let (last, rest) = route_opts-Reads ls n cap' (rs ++ l ∷ []) named.1 in
      (
        last,
        rw added (
            rest
            ∙ ap
                (λ z. proceeds (record {
                  worker_count = n;
                  conf_path = none;
                  inline_routes = z;
                  inline_route_cap = last;
                }))
                (append_assoc rs (l ∷ []) ls)),
      )

  worker_opt-Reads :
      (n : ℕ)
      → 0 < n
      → n ≤ int_max
      → one_opt calls (record { letter = b'w'; optarg = some (decimal n) }) defaults
        ≡ proceeds (record defaults { worker_count = n })
  unfolding one_opt worker_option
  worker_opt-Reads n pos small =
      let (d, ds, e, _) = decimal-BeginsWithDigit n in
      let nonempty : is_nil (decimal n) ≡ false = rw e refl in
      let accepted : ltb int_max n ≡ false = ground arith in
      let not_auto : (n == 0) ≡ false = ground arith in
      rw (nonempty, strtoul-decimal n (omega arith), accepted, not_auto) refl

  -- A command line with `-w` and a number from 1 to INT_MAX and with `-L` before each of some routes,
  -- none empty but whatever else their bytes are, is read as that number of workers and these routes,
  -- in order, if there is memory.
  pub parse_options-command_line :
      (n : ℕ) (rs : List Bytes)
      → 0 < n
      → n ≤ int_max
      → rs ≢ []
      → All (λ line. line ≢ []) rs
      → Reads n rs (parse_options calls (command_line n rs))
  unfolding parse_options check_options option_loop
  parse_options-command_line n [] pos small some_route named = absurd (some_route refl)
  parse_options-command_line n (r ∷ rs) pos small some_route named =
      let (cap, read) = route_opts-Reads (r ∷ rs) n 0 [] named in
      (
        cap,
        ap (parsed calls) (getopt-command_line n (r ∷ rs))
            ∙ rw (worker_opt-Reads n pos small, read) refl,
      )
