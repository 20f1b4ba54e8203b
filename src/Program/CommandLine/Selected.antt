-- ===== src/Program/CommandLine/Selected.antt =====
-- What main of src/tinyproxy.c has when it goes on behind its command line.
use tinyproxy.Base.{
  ℕ, ◌-◌, ◌*◌, ◌==◌, ◌≤◌, ◌≡◌, ◌≢◌, ◌⊎◌, inl, inr, refl, subst, Bool, true, false, not, ◌&&◌, ◌||◌,
  Bool-cases, List, [], ◌∷◌, ◌++◌, Option, none, some, ltb, if◌then◌else◌, arith, Bytes, length,
  length-append, All, All-append,
}
use tinyproxy.Text.{is_nil}
use tinyproxy.Text.Numbers.{strtoul, int_max}
use tinyproxy.Program.CommandLine.{
  is_empty_arg, arg, is_none, Opt, Options, defaults, Parsed, exits, proceeds, compat_cpu_count,
  OptionCalls, worker_option, route_option, one_opt, onwards, option_loop, check_options, getopt,
  parse_options,
}

-- The variables while the loop runs: what is named is not empty, and the array has room for it.
pub record IsKept (st : Options) : Type 0 where
  pub workers : st.worker_count ≤ int_max
  pub path : (p : Bytes) → st.conf_path ≡ some p → p ≢ []
  pub lines : All (λ line. line ≢ []) st.inline_routes
  pub fits : length st.inline_routes ≤ st.inline_route_cap

-- Behind it: a path, or routes, and not both.
abbrev pub IsSelected : Options → Type 0
IsSelected st =
    IsKept st
    × (((p : Bytes) × (st.conf_path ≡ some p) × (st.inline_routes ≡ []))
        ⊎ (st.conf_path ≡ none) × (st.inline_routes ≢ []))

abbrev Keeps : (Options → Type 0) → Parsed → Type 0
Keeps P (exits code freed) = Unit
Keeps P (proceeds st) = P st

compat_cpu_count-le : (n : ℕ) → compat_cpu_count n ≤ int_max
unfolding compat_cpu_count
compat_cpu_count-le n = ground arith

module _ (calls : OptionCalls) where
  worker_option-Keeps :
      (optarg : Bytes) (st : Options) → IsKept st → Keeps IsKept (worker_option calls optarg st)
  unfolding worker_option
  worker_option-Keeps optarg st kept =
      by_tests (strtoul optarg).out_of_range (is_nil (strtoul optarg).end) (strtoul optarg).result
    where
      by_tests :
          (range at_end : Bool) (n : ℕ)
          → Keeps IsKept (
              if range || not at_end || ltb int_max n
              then exits 2 false
              else if n == 0
              then proceeds (record st { worker_count = compat_cpu_count calls.sysconf - 1 })
              else proceeds (record st { worker_count = n }))
      by_tests true at_end n = tt
      by_tests false false n = tt
      by_tests false true n = elim (Bool-cases (ltb int_max n)) [
        | inl large ↦ rw large tt
        | inr small ↦ elim (Bool-cases (n == 0)) [
          | inl zero_n ↦
              rw (small, zero_n)
                (record {
                  workers = omega (arith, compat_cpu_count-le calls.sysconf);
                  path = kept.path;
                  lines = kept.lines;
                  fits = kept.fits;
                })
          | inr pos ↦
              rw (small, pos)
                (record {
                  workers = ground arith;
                  path = kept.path;
                  lines = kept.lines;
                  fits = kept.fits;
                })
        ]
      ]

  route_option-Keeps :
      (optarg : Bytes) (st : Options)
      → optarg ≢ []
      → IsKept st
      → Keeps IsKept (route_option calls optarg st)
  unfolding route_option
  route_option-Keeps optarg st some_line kept =
      by_room (length st.inline_routes == st.inline_route_cap) refl (calls.realloc_ok new_cap)
    where
      new_cap : ℕ
      new_cap = if st.inline_route_cap == 0 then 4 else st.inline_route_cap * 2

      lines : All (λ line. line ≢ []) (st.inline_routes ++ optarg ∷ [])
      lines = All-append _ st.inline_routes (optarg ∷ []) kept.lines (some_line, tt)

      by_room :
          (full : Bool)
          → (length st.inline_routes == st.inline_route_cap) ≡ full
          → (memory : Bool)
          → Keeps IsKept (
              if full
              then (if memory
                  then proceeds (record st {
                    inline_routes = st.inline_routes ++ optarg ∷ [];
                    inline_route_cap = new_cap;
                  })
                  else exits 1 true)
              else proceeds (record st { inline_routes = st.inline_routes ++ optarg ∷ [] }))
      by_room true at true = record {
        workers = kept.workers;
        path = kept.path;
        lines = lines;
        fits = ground (arith, kept.fits, length-append st.inline_routes (optarg ∷ []));
      }
      by_room true at false = tt
      by_room false at memory = record {
        workers = kept.workers;
        path = kept.path;
        lines = lines;
        fits = ground (arith, kept.fits, length-append st.inline_routes (optarg ∷ []));
      }

  one_opt-Keeps : (o : Opt) (st : Options) → IsKept st → Keeps IsKept (one_opt calls o st)
  unfolding one_opt
  one_opt-Keeps o st kept =
      by_letter (o.letter == b'w') (o.letter == b'c') (o.letter == b'L') (o.letter == b'h')
        (o.letter == b'v') o.optarg
    where
      by_letter :
          (w c l h v : Bool) (optarg : Option Bytes)
          → Keeps IsKept (
              if w
              then (if is_empty_arg optarg
                  then exits 2 false
                  else worker_option calls (arg optarg) st)
              else if c
              then (if is_empty_arg optarg
                  then exits 2 true
                  else proceeds (record st { conf_path = optarg }))
              else if l
              then (if is_empty_arg optarg
                  then exits 2 true
                  else route_option calls (arg optarg) st)
              else if h
              then exits 0 true
              else if v
              then exits 0 true
              else exits 2 true)
      by_letter true c l h v none = tt
      by_letter true c l h v (some []) = tt
      by_letter true c l h v (some (x ∷ xs)) = worker_option-Keeps (x ∷ xs) st kept
      by_letter false true l h v none = tt
      by_letter false true l h v (some []) = tt
      by_letter false true l h v (some (x ∷ xs)) = record {
        workers = kept.workers;
        path = λ p e n. cc;
        lines = kept.lines;
        fits = kept.fits;
      }
      by_letter false false true h v none = tt
      by_letter false false true h v (some []) = tt
      by_letter false false true h v (some (x ∷ xs)) = route_option-Keeps (x ∷ xs) st (λ e. cc) kept
      by_letter false false false true v optarg = tt
      by_letter false false false false true optarg = tt
      by_letter false false false false false optarg = tt

  onwards-Keeps :
      (P Q : Options → Type 0) (p : Parsed) (next : Options → Parsed)
      → Keeps P p
      → ((st : Options) → P st → Keeps Q (next st))
      → Keeps Q (onwards p next)
  onwards-Keeps P Q (exits code freed) next h k = tt
  onwards-Keeps P Q (proceeds st) next h k = k st h

  option_loop-Keeps :
      (os : List Opt) (st : Options) → IsKept st → Keeps IsKept (option_loop calls os st)
  unfolding option_loop
  option_loop-Keeps [] st kept = kept
  option_loop-Keeps (o ∷ os) st kept =
      onwards-Keeps IsKept IsKept (one_opt calls o st) (option_loop calls os)
        (one_opt-Keeps o st kept) (option_loop-Keeps os)

  check_options-Keeps :
      (operands : List Bytes) (st : Options)
      → IsKept st
      → Keeps IsSelected (check_options operands st)
  unfolding check_options
  check_options-Keeps operands st kept =
      by_source st.conf_path refl st.inline_routes refl (is_nil operands)
    where
      by_source :
          (path : Option Bytes)
          → st.conf_path ≡ path
          → (lines : List Bytes) → st.inline_routes ≡ lines
          → (no_operand : Bool)
          → Keeps IsSelected (
              if is_none path && is_nil lines
              then exits 0 true
              else if not (is_none path) && not (is_nil lines)
              then exits 2 true
              else if not no_operand
              then exits 2 false
              else proceeds st)
      by_source none at [] with_lines no_operand = tt
      by_source (some p) at (l ∷ ls) with_lines no_operand = tt
      by_source none at (l ∷ ls) with_lines true = (kept, inr (at, λ e. cc))
      by_source none at (l ∷ ls) with_lines false = tt
      by_source (some p) at [] with_lines true = (kept, inl (p, at, with_lines))
      by_source (some p) at [] with_lines false = tt

  Keeps-proceeds :
      (P : Options → Type 0) (p : Parsed) (st : Options) → Keeps P p → p ≡ proceeds st → P st
  Keeps-proceeds P (exits code freed) st h e = cc
  Keeps-proceeds P (proceeds now) st h e = let same : now ≡ st = cc in subst P same h

  -- A command line with which main goes on names a path, which is not empty, or at least one route,
  -- none of them empty, and not both; it gives at most INT_MAX workers; and the array has room for
  -- the routes.
  pub parse_options-IsSelected :
      (argv : List Bytes) (st : Options) → parse_options calls argv ≡ proceeds st → IsSelected st
  unfolding parse_options
  parse_options-IsSelected argv st = Keeps-proceeds IsSelected (parse_options calls argv) st (
      onwards-Keeps IsKept IsSelected (option_loop calls (getopt argv).0 defaults)
        (check_options (getopt argv).1)
        (option_loop-Keeps (getopt argv).0 defaults
          (record { workers = omega arith; path = λ p e. cc; lines = tt; fits = omega arith }))
        (check_options-Keeps (getopt argv).1))
