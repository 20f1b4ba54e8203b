-- ===== src/Conf/Loader/Config.antt =====
-- What a text that load_routes_from_text of src/file_conf.c accepts gives.
use mathlib.Core.Path.{subst}
use tinyproxy.Base.{
  ℕ, ◌+◌, ◌%◌, ◌^◌, ◌≤◌, ◌<◌, ◌≡◌, refl, sym, ◌∙◌, Bool, true, false, List, [], ◌∷◌, ◌++◌, Option,
  none, some, arith, leb, ◌==◌, if◌then◌else◌, Bool-cases, Option-cases, inl, inr, Bytes, length,
  All, All-append, Result, ok, err, >>=-eq-ok, e2big,
}
use tinyproxy.Text.{is_nil, c_string, trim, strchr}
use tinyproxy.Route.{Route}
use tinyproxy.Conf.Line.{parse_route_line}
use tinyproxy.Conf.Line.Valid.{IsRoute, parse_route_line-IsRoute}
use tinyproxy.Conf.Loader.{
  same_listen_endpoint, find_from, find_conflicting_route, max_line_len, Loader, Memory, strip_cr,
  grow, or_einval, add_route, before_comment, trimmed_line, one_line, start, load_routes_from_text,
}
use tinyproxy.Conf.Loader.Given.{Gives, grow-line_no, or_einval-ok, each_line-Gives}
use tinyproxy.Conf.Loader.Lines.{file_lines, each_line, load_routes-lines}

-- No two routes listen on one endpoint.
abbrev pub Separate : List Route → Type 0
Separate [] = Unit {0}
Separate (r ∷ rs) = All (λ q. same_listen_endpoint r.listen_ep q.listen_ep ≡ false) rs × Separate rs

-- The line numbers rise, above `lo` and up to `hi`.
abbrev pub Rising : ℕ → List Route → ℕ → Type 0
Rising lo [] hi = lo ≤ hi
Rising lo (r ∷ rs) hi = (lo < r.line_no) × Rising r.line_no rs hi

pub record IsConfig (hi : ℕ) (routes : List Route) : Type 0 where
  pub valid : All IsRoute routes
  pub separate : Separate routes
  pub rising : Rising 0 routes hi

Rising-mono : (lo hi top : ℕ) (rs : List Route) → hi ≤ top → Rising lo rs hi → Rising lo rs top
Rising-mono lo hi top [] h r = omega arith
Rising-mono lo hi top (q ∷ rs) h r = (r.0, Rising-mono q.line_no hi top rs h r.1)

Rising-append :
    (lo hi : ℕ) (rs : List Route) (r : Route)
    → hi < r.line_no
    → Rising lo rs hi
    → Rising lo (rs ++ r ∷ []) r.line_no
Rising-append lo hi [] r h k = (omega arith, omega arith)
Rising-append lo hi (q ∷ rs) r h k = (k.0, Rising-append q.line_no hi rs r h k.1)

Separate-append :
    (i : ℕ) (rs : List Route) (r : Route)
    → find_from i rs r ≡ none
    → Separate rs
    → Separate (rs ++ r ∷ [])
unfolding find_from
Separate-append i [] r e s = (tt, tt)
Separate-append i (q ∷ rs) r e s =
    elim (Bool-cases (same_listen_endpoint q.listen_ep r.listen_ep)) [
      | inl hit ↦ cc (e, hit)
      | inr miss ↦
          (All-append _ rs (r ∷ []) s.0 (miss, tt), Separate-append (i + 1) rs r (ground arith) s.1)
    ]

IsConfig-append :
    (hi : ℕ) (rs : List Route) (r : Route)
    → IsConfig hi rs
    → IsRoute r
    → hi < r.line_no
    → find_conflicting_route rs r ≡ none
    → IsConfig r.line_no (rs ++ r ∷ [])
unfolding find_conflicting_route
IsConfig-append hi rs r v w h e = record {
  valid = All-append IsRoute rs (r ∷ []) v.valid (w, tt);
  separate = Separate-append 0 rs r e v.separate;
  rising = Rising-append 0 hi rs r h v.rising;
}

module _ (mem : Memory) where
  abbrev Keeps : ℕ → Loader → Result Loader → Type 0
  Keeps hi st r =
      (st' : Loader) → r ≡ ok st' → IsConfig st.line_no st'.routes × (st'.line_no ≡ st.line_no)

  unchanged : (hi : ℕ) (st : Loader) → hi ≤ st.line_no → IsConfig hi st.routes → Keeps hi st (ok st)
  unchanged hi st h v st' e =
      let same : st ≡ st' = cc e in
      subst (λ t. IsConfig st.line_no t.routes × (t.line_no ≡ st.line_no)) same (later, refl)
    where
      later : IsConfig st.line_no st.routes
      later = record {
        valid = v.valid;
        separate = v.separate;
        rising = Rising-mono 0 hi st.line_no st.routes h v.rising;
      }

  add_route-Keeps :
      (hi : ℕ) (line : Bytes) (st : Loader)
      → hi < st.line_no
      → IsConfig hi st.routes
      → Keeps hi st (add_route mem line st)
  unfolding add_route
  add_route-Keeps hi line st h v st' e =
      let (g, grown, e1) = >>=-eq-ok (grow mem st) _ e in
      let (p, parsed, e2) = >>=-eq-ok (or_einval mem (parse_route_line line)) _ e1 in
      let r : Route = record p { line_no = st.line_no } in
      let from_line = or_einval-ok mem (parse_route_line line) p parsed in
      let good = (parse_route_line-IsRoute line p from_line).0 in
      let is_route : IsRoute r = record {
        listen_valid = good.listen_valid;
        upstream_valid = good.upstream_valid;
        opts_valid = good.opts_valid;
      } in
      elim (Option-cases (find_conflicting_route st.routes r)) [
        | inl free ↦
            let same : record g { routes = st.routes ++ r ∷ [] } ≡ st' = cc (e2, free) in
            subst (λ t. IsConfig st.line_no t.routes × (t.line_no ≡ st.line_no)) same
              (IsConfig-append hi st.routes r v is_route h free, grow-line_no mem st g grown)
        | inr (i, taken) ↦ cc (e2, taken)
      ]

  Keeps-if :
      (hi : ℕ) (st : Loader) (b : Bool) (r q : Result Loader)
      → Keeps hi st r
      → Keeps hi st q
      → Keeps hi st (if b then r else q)
  Keeps-if hi st true r q k l = k
  Keeps-if hi st false r q k l = l

  before_comment-Keeps :
      (hi : ℕ) (line : Bytes) (o : Option (Bytes × Bytes)) (st : Loader)
      → hi < st.line_no
      → IsConfig hi st.routes
      → Keeps hi st (before_comment mem line o st)
  unfolding before_comment
  before_comment-Keeps hi line none st h v = add_route-Keeps hi line st h v
  before_comment-Keeps hi line (some (text, comment)) st h v =
      Keeps-if hi st (is_nil (trim text)) (ok st) (add_route mem (trim text) st)
        (unchanged hi st (omega arith) v) (add_route-Keeps hi (trim text) st h v)

  trimmed_line-Keeps :
      (hi : ℕ) (line : Bytes) (st : Loader)
      → hi < st.line_no
      → IsConfig hi st.routes
      → Keeps hi st (trimmed_line mem line st)
  unfolding trimmed_line
  trimmed_line-Keeps hi [] st h v = unchanged hi st (omega arith) v
  trimmed_line-Keeps hi (c ∷ cs) st h v =
      Keeps-if hi st (c == b'#') (ok st) (before_comment mem (c ∷ cs) (strchr b'#' (c ∷ cs)) st)
        (unchanged hi st (omega arith) v)
        (before_comment-Keeps hi (c ∷ cs) (strchr b'#' (c ∷ cs)) st h v)

  one_line-Keeps :
      (raw : Bytes) (st st' : Loader)
      → IsConfig st.line_no st.routes
      → st.line_no + 1 < 2 ^ 32
      → one_line mem raw st ≡ ok st'
      → IsConfig st'.line_no st'.routes × (st'.line_no ≡ st.line_no + 1)
  unfolding one_line
  one_line-Keeps raw st st' v small e =
      let counted : Loader = record st { line_no = (st.line_no + 1) % 2 ^ 32 } in
      let no_wrap : (st.line_no + 1) % 2 ^ 32 ≡ st.line_no + 1 = omega arith in
      let (kept, same) =
        Keeps-if st.line_no counted (leb max_line_len (length (strip_cr raw))) (err e2big)
          (trimmed_line mem (trim (c_string (strip_cr raw))) counted) (λ q x. cc x)
          (trimmed_line-Keeps st.line_no (trim (c_string (strip_cr raw))) counted (omega arith) v)
          st' e in
      (subst (λ n. IsConfig n st'.routes) (sym same) kept, same ∙ no_wrap)

  each_line-IsConfig :
      (ls : List Bytes) (st st' : Loader)
      → IsConfig st.line_no st.routes
      → st.line_no + length ls < 2 ^ 32
      → each_line mem ls st ≡ ok st'
      → IsConfig st'.line_no st'.routes × (st'.line_no ≡ st.line_no + length ls)
  unfolding each_line
  each_line-IsConfig [] st st' v small e =
      let same : st ≡ st' = cc e in
      subst (λ t. IsConfig t.line_no t.routes × (t.line_no ≡ st.line_no + 0)) same (v, omega arith)
  each_line-IsConfig (l ∷ ls) st st' v small e =
      let (mid, first, rest) = >>=-eq-ok (one_line mem l st) _ e in
      let (w, n) = one_line-Keeps l st mid v (omega arith) first in
      let (u, m) = each_line-IsConfig ls mid st' w (omega arith) rest in (u, omega arith)

  -- A text of fewer than 2 ^ 32 lines that is accepted gives exactly the routes of its lines, in
  -- order: a line that is blank or a comment gives none, and any other line gives what
  -- parse_route_line gives for it without its comment and the blanks around it, but with the
  -- number of the line. Each route has ports, hosts, paths and options in their ranges, no two
  -- routes listen on one endpoint, and the line numbers rise from 1 up to the number of lines of
  -- the text.
  pub load_routes-IsConfig :
      (text : Bytes) (routes : List Route)
      → length (file_lines text) < 2 ^ 32
      → load_routes_from_text mem text ≡ some (ok routes)
      → IsConfig (length (file_lines text)) routes × Gives 0 (file_lines text) routes
  load_routes-IsConfig text routes small e =
      ended (each_line mem (file_lines text) (start mem)) refl
    where
      empty : IsConfig 0 []
      empty = record { valid = tt; separate = tt; rising = omega arith }

      ended :
          (r : Result Loader)
          → each_line mem (file_lines text) (start mem) ≡ r
          → IsConfig (length (file_lines text)) routes × Gives 0 (file_lines text) routes
      ended (ok st) f =
          let (v, n) = each_line-IsConfig (file_lines text) (start mem) st empty (omega arith) f in
          let same : st.routes ≡ routes = cc (e, load_routes-lines mem text, f) in
          let (rs, all, gives) =
            each_line-Gives mem (file_lines text) (start mem) st (omega arith) f in
          (
            subst (λ rs. IsConfig (length (file_lines text)) rs) same
                (subst (λ k. IsConfig k st.routes) (n ∙ omega arith) v),
            subst (Gives 0 (file_lines text)) (sym all ∙ same) gives,
          )
      ended (err x) f = cc (e, load_routes-lines mem text, f)
