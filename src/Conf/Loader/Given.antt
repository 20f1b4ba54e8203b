-- ===== src/Conf/Loader/Given.antt =====
-- For load_routes_from_text of src/file_conf.c: what each line of a text gives.
use mathlib.Core.Path.{subst}
use tinyproxy.Base.{
  ℕ, ◌+◌, ◌%◌, ◌^◌, ◌<◌, ◌≡◌, refl, ap, sym, ◌∙◌, ◌⊎◌, inl, inr, true, List, [], ◌∷◌, ◌++◌,
  append_assoc, append-nil, Option, none, some, arith, leb, ◌==◌, Bool-cases, Option-cases, Bytes,
  length, Result, ok, err, >>=-eq-ok,
}
use tinyproxy.Text.{is_nil, c_string, trim, strchr}
use tinyproxy.Route.{Route}
use tinyproxy.Conf.Line.{parse_route_line}
use tinyproxy.Conf.Line.Valid.{parse_route_line-IsRoute}
use tinyproxy.Conf.Loader.{
  find_conflicting_route, max_line_len, Loader, Memory, strip_cr, grow, or_einval, add_route,
  before_comment, trimmed_line, one_line,
}
use tinyproxy.Conf.Loader.Lines.{each_line}

abbrev pub before_hash : Bytes → Option (Bytes × Bytes) → Bytes
before_hash line none = line
before_hash line (some (text, comment)) = trim text

-- A line without its comment and the blanks around it.
abbrev pub content : Bytes → Bytes
content raw = let line = trim (c_string (strip_cr raw)) in before_hash line (strchr b'#' line)

-- Each line behind the first `n` is blank or a comment and gives nothing, or gives one route: what
-- parse_route_line gives for it, but with the number of the line.
abbrev pub Gives : ℕ → List Bytes → List Route → Type 0
Gives n [] rs = rs ≡ []
Gives n (l ∷ ls) rs =
    ((content l ≡ []) × Gives (n + 1) ls rs)
    ⊎ ((r : Route) × (later : List Route) × (rs ≡ r ∷ later)
        × (r.line_no ≡ n + 1)
        × (parse_route_line (content l) ≡ ok (record r { line_no = 0 }))
        × Gives (n + 1) ls later)

-- One line with this content, whose number is in the state.
abbrev Adds : Bytes → Loader → Loader → Type 0
Adds text st st' =
    (st'.line_no ≡ st.line_no)
    × (((text ≡ []) × (st'.routes ≡ st.routes))
        ⊎ ((r : Route) × (st'.routes ≡ st.routes ++ r ∷ [])
            × (r.line_no ≡ st.line_no)
            × (parse_route_line text ≡ ok (record r { line_no = 0 }))))

nil_of : (bs : Bytes) → is_nil bs ≡ true → bs ≡ []
nil_of [] h = refl
nil_of (b ∷ bs) h = cc

module _ (mem : Memory) where
  pub grow-line_no : (st g : Loader) → grow mem st ≡ ok g → g.line_no ≡ st.line_no
  unfolding grow
  grow-line_no st g e = ground arith

  pub or_einval-ok : (r : Result Route) (p : Route) → or_einval mem r ≡ ok p → r ≡ ok p
  or_einval-ok (ok q) p e = e
  or_einval-ok (err x) p e = cc

  skipped : (text : Bytes) (st st' : Loader) → text ≡ [] → ok st ≡ ok st' → Adds text st st'
  skipped text st st' blank e =
      let same : st ≡ st' = cc e in subst (Adds text st) same (refl, inl (blank, refl))

  add_route-Adds :
      (line : Bytes) (st st' : Loader) → add_route mem line st ≡ ok st' → Adds line st st'
  unfolding add_route
  add_route-Adds line st st' e =
      let (g, grown, e1) = >>=-eq-ok (grow mem st) _ e in
      let (p, parsed, e2) = >>=-eq-ok (or_einval mem (parse_route_line line)) _ e1 in
      let r : Route = record p { line_no = st.line_no } in
      let from_line = or_einval-ok (parse_route_line line) p parsed in
      let unnumbered = (parse_route_line-IsRoute line p from_line).1 in
      elim (Option-cases (find_conflicting_route st.routes r)) [
        | inl free ↦
            let same : record g { routes = st.routes ++ r ∷ [] } ≡ st' = cc (e2, free) in
            subst (Adds line st) same (
              grow-line_no st g grown,
              inr (r, refl, refl, from_line ∙ ap (λ n. ok (record p { line_no = n })) unnumbered),
            )
        | inr (i, taken) ↦ cc (e2, taken)
      ]

  before_comment-Adds :
      (line : Bytes) (o : Option (Bytes × Bytes)) (st st' : Loader)
      → before_comment mem line o st ≡ ok st'
      → Adds (before_hash line o) st st'
  unfolding before_comment
  before_comment-Adds line none st st' e = add_route-Adds line st st' e
  before_comment-Adds line (some (text, comment)) st st' e =
      elim (Bool-cases (is_nil (trim text))) [
        | inl blank ↦ skipped (trim text) st st' (nil_of (trim text) blank) (cc (e, blank))
        | inr present ↦ add_route-Adds (trim text) st st' (cc (e, present))
      ]

  trimmed_line-Adds :
      (line : Bytes) (st st' : Loader)
      → trimmed_line mem line st ≡ ok st'
      → Adds (before_hash line (strchr b'#' line)) st st'
  unfolding trimmed_line strchr trim
  trimmed_line-Adds [] st st' e = skipped [] st st' refl e
  trimmed_line-Adds (c ∷ cs) st st' e = elim (Bool-cases (c == b'#')) [
    | inl comment ↦ rw comment (skipped [] st st' refl (cc (e, comment)))
    | inr other ↦ before_comment-Adds (c ∷ cs) (strchr b'#' (c ∷ cs)) st st' (cc (e, other))
  ]

  one_line-Adds :
      (raw : Bytes) (st st' : Loader)
      → one_line mem raw st ≡ ok st'
      → Adds (content raw) (record st { line_no = (st.line_no + 1) % 2 ^ 32 }) st'
  unfolding one_line
  one_line-Adds raw st st' e = elim (Bool-cases (leb max_line_len (length (strip_cr raw)))) [
    | inl long ↦ cc (e, long)
    | inr short ↦
        trimmed_line-Adds (trim (c_string (strip_cr raw)))
          (record st { line_no = (st.line_no + 1) % 2 ^ 32 }) st' (cc (e, short))
  ]

  pub each_line-Gives :
      (ls : List Bytes) (st st' : Loader)
      → st.line_no + length ls < 2 ^ 32
      → each_line mem ls st ≡ ok st'
      → (rs : List Route) × (st'.routes ≡ st.routes ++ rs) × Gives st.line_no ls rs
  unfolding each_line
  each_line-Gives [] st st' small e =
      let same : st ≡ st' = cc e in
      ([], ap (λ z. z.routes) (sym same) ∙ sym (append-nil st.routes), refl)
  each_line-Gives (l ∷ ls) st st' small e =
      let (mid, first, rest) = >>=-eq-ok (one_line mem l st) _ e in
      let (counted, adds) = one_line-Adds l st mid first in
      let no_wrap : (st.line_no + 1) % 2 ^ 32 ≡ st.line_no + 1 = omega arith in
      let number = counted ∙ no_wrap in
      let (rs, all, gives) = each_line-Gives ls mid st' (omega arith) rest in
      let gives_on = subst (λ n. Gives n ls rs) number gives in
      elim adds [
        | inl (blank, same) ↦ (rs, all ∙ ap (λ z. z ++ rs) same, inl (blank, gives_on))
        | inr (r, added, at, parsed) ↦ (
          r ∷ rs,
          all ∙ ap (λ z. z ++ rs) added ∙ append_assoc st.routes (r ∷ []) rs,
          inr (r, rs, refl, at ∙ no_wrap, parsed, gives_on),
        )
      ]
