-- ===== src/Program/Exit.antt =====
-- The runs of src/tinyproxy.c that end with the exit code 0.
use tinyproxy.Base.{
  ℕ, ◌+◌, ◌≡◌, ◌≢◌, refl, ap, sym, subst, ◌∙◌, append-nil, Bool, true, false, List, [], ◌∷◌, ◌++◌,
  append_assoc, Option, none, some, if◌then◌else◌, Bytes, All, Errno, Result, ok, err,
}
use tinyproxy.Route.{Route, validate_route}
use tinyproxy.Pool.{WorkerPool}
use tinyproxy.Runtime.{RouteCtx, start_route}
use tinyproxy.Program.CommandLine.{Options, proceeds, parse_options}
use tinyproxy.Program.{Ended, ended_from, out, finish, with_options, main}
use tinyproxy.Program.Loaded.{load_routes-cases}
use tinyproxy.Program.Start.{
  ProgramCalls, World, at_first, did, start, dispatch, Ran, goto_out, runs_on, ◌>>=◌, nothing_done,
  file_routes, load_routes, with_signals, with_pool, with_workers, make_route_ctxs, make_base,
  start_signals, make_pool, start_workers, with_route, if_valid, start_one, start_routes_from,
  run_loop, with_routes, run,
}

-- These contexts are what start_route gave for these routes, numbered from `i`, each with the code 0.
abbrev pub Started : ProgramCalls → ℕ → List Route → List RouteCtx → Type 0
Started calls i [] [] = Unit {0}
Started calls i (r ∷ rs) (c ∷ cs) =
    (start_route (calls.stat i) (calls.stream_calls i) (calls.datagram_calls i) r nothing_done
      ≡ (none, c))
    × Started calls (i + 1) rs cs
Started calls i _ _ = ⊥

-- Every one of these routes is valid and was started, the only ones, and no start has failed.
abbrev pub Served : ProgramCalls → List Route → World → Type 0
Served calls rs w =
    All (λ r. validate_route (some r) ≡ ok tt) rs × Started calls 0 rs w.ctxs × (w.failed ≡ [])

>>=-runs_on :
    (r : Ran) (next : World → Ran) (v : World)
    → (r >>= next) ≡ runs_on v
    → (w : World) × (r ≡ runs_on w) × (next w ≡ runs_on v)
>>=-runs_on (goto_out w) next v h = cc
>>=-runs_on (runs_on w) next v h = (w, refl, h)

module _ (calls : ProgramCalls) where
  start_one-runs_on :
      (i : ℕ) (r : Route) (w v : World)
      → start_one calls i r w ≡ runs_on v
      → (validate_route (some r) ≡ ok tt)
        × ((c : RouteCtx) × (v.ctxs ≡ w.ctxs ++ c ∷ [])
            × (start_route
                  (calls.stat i)
                  (calls.stream_calls i)
                  (calls.datagram_calls i)
                  r
                  nothing_done
                ≡ (none, c)))
        × (v.failed ≡ w.failed)
  unfolding start_one
  start_one-runs_on i r w v =
      by_valid (validate_route (some r))
        (start_route (calls.stat i) (calls.stream_calls i) (calls.datagram_calls i) r nothing_done)
        refl
    where
      by_valid :
          (u : Result (Unit {0})) (o : Option Errno × RouteCtx)
          → start_route
              (calls.stat i)
              (calls.stream_calls i)
              (calls.datagram_calls i)
              r
              nothing_done
            ≡ o
          → if_valid calls u w (with_route calls i o w) ≡ runs_on v
          → (u ≡ ok tt)
            × ((c : RouteCtx) × (v.ctxs ≡ w.ctxs ++ c ∷ [])
                × (start_route
                      (calls.stat i)
                      (calls.stream_calls i)
                      (calls.datagram_calls i)
                      r
                      nothing_done
                    ≡ (none, c)))
            × (v.failed ≡ w.failed)
      by_valid (err e) o started h = cc h
      by_valid (ok u) (some e, c) started h = cc h
      by_valid (ok u) (none, c) started h =
          let same : v ≡ did (start i) (record w { ctxs = w.ctxs ++ c ∷ [] }) = cc h in
          (refl, (c, ap (λ z. z.ctxs) same, started), ap (λ z. z.failed) same)

  start_routes-runs_on :
      (rs : List Route) (i : ℕ) (w v : World)
      → start_routes_from calls i rs w ≡ runs_on v
      → All (λ r. validate_route (some r) ≡ ok tt) rs
        × ((cs : List RouteCtx) × (v.ctxs ≡ w.ctxs ++ cs) × Started calls i rs cs)
        × (v.failed ≡ w.failed)
  unfolding start_routes_from
  start_routes-runs_on [] i w v h =
      let same : w ≡ v = cc in
      (
        tt,
        ([], ap (λ z. z.ctxs) (sym same) ∙ sym (append-nil w.ctxs), tt),
        ap (λ z. z.failed) (sym same),
      )
  start_routes-runs_on (r ∷ rs) i w v h =
      let (u, first, rest) =
        >>=-runs_on (start_one calls i r w) (start_routes_from calls (i + 1) rs) v h in
      let (valid, (c, one, started), same) = start_one-runs_on i r w u first in
      let (others, (cs, more, later), kept) = start_routes-runs_on rs (i + 1) u v rest in
      (
        (valid, others),
        (c ∷ cs, more ∙ ap (λ z. z ++ cs) one ∙ append_assoc w.ctxs (c ∷ []) cs, (started, later)),
        kept ∙ same,
      )

  abbrev Same : World → World → Type 0
  Same w u = (u.ctxs ≡ w.ctxs) × (u.failed ≡ w.failed)

  if-Same :
      (b : Bool) (w x y u : World)
      → Same w x
      → (if b then runs_on x else goto_out y) ≡ runs_on u
      → Same w u
  if-Same true w x y u same h = let at : x ≡ u = cc in subst (Same w) at same
  if-Same false w x y u same h = cc

  with_signals-Same :
      (o : Option (List Bool)) (w u : World) → with_signals calls o w ≡ runs_on u → Same w u
  with_signals-Same (some frees) w u h = cc
  with_signals-Same none w u h = if-Same true w _ w u (refl, refl) h

  with_pool-Same :
      (o : Option Errno × WorkerPool) (w u : World) → with_pool calls o w ≡ runs_on u → Same w u
  with_pool-Same (some e, pool) w u h = cc
  with_pool-Same (none, pool) w u h = if-Same true w _ w u (refl, refl) h

  with_workers-Same :
      (o : Option Errno × WorkerPool) (w u : World) → with_workers calls o w ≡ runs_on u → Same w u
  with_workers-Same (some e, pool) w u h = cc
  with_workers-Same (none, pool) w u h = if-Same true w _ w u (refl, refl) h

  with_routes-Served :
      (count : ℕ) (routes : Result (List Route)) (w v : World)
      → Same at_first w
      → with_routes calls count (routes, w) ≡ runs_on v
      → (rs : List Route) × (routes ≡ ok rs)
        × (rs ≢ [])
        × Served calls rs v
        × (calls.dispatch_ok ≡ true)
  unfolding with_routes make_route_ctxs make_base start_signals make_pool start_workers run_loop
  with_routes-Served count (err e) w v early h = cc
  with_routes-Served count (ok []) w v early h = cc
  with_routes-Served count (ok (r ∷ rs)) w v early h =
      let (w1, is1, h1) = >>=-runs_on (make_route_ctxs calls w) _ v h in
      let (w2, is2, h2) = >>=-runs_on (make_base calls w1) _ v h1 in
      let (w3, is3, h3) = >>=-runs_on (start_signals calls w2) _ v h2 in
      let (w4, is4, h4) = >>=-runs_on (make_pool calls count w3) _ v h3 in
      let (w5, is5, h5) = >>=-runs_on (start_workers calls w4) _ v h4 in
      let (w6, is6, h6) =
        >>=-runs_on (start_routes_from calls 0 (r ∷ rs) w5) (run_loop calls) v h5 in
      let same1 = if-Same calls.ctxs_calloc w _ _ w1 (refl, refl) is1 in
      let same2 = if-Same calls.base_new w1 _ _ w2 (refl, refl) is2 in
      let same3 = with_signals-Same _ w2 w3 is3 in
      let same4 = with_pool-Same _ w3 w4 is4 in
      let same5 = with_workers-Same _ w4 w5 is5 in
      let same7 = if-Same calls.dispatch_ok w6 _ _ v (refl, refl) h6 in
      let (valid, (cs, many, started), kept) = start_routes-runs_on (r ∷ rs) 0 w5 w6 is6 in
      let none_yet : w5.ctxs ≡ [] = cc in
      let all : cs ≡ v.ctxs = sym (same7.0 ∙ many ∙ ap (λ z. z ++ cs) none_yet) in
      (
        r ∷ rs,
        refl,
        (λ e. cc),
        (valid, subst (Started calls 0 (r ∷ rs)) all started, cc),
        dispatched (did dispatch w6) calls.dispatch_ok h6,
      )
    where
      dispatched :
          (x : World) (b : Bool) → (if b then runs_on x else goto_out x) ≡ runs_on v → b ≡ true
      dispatched x true h = refl
      dispatched x false h = cc

  file-Same : (o : Option (Result (List Route))) → Same at_first (file_routes calls o at_first).1
  file-Same none = (refl, refl)
  file-Same (some (err e)) = (refl, refl)
  file-Same (some (ok [])) = (refl, refl)
  file-Same (some (ok (r ∷ rs))) = (refl, refl)

  load_routes-Same : (opts : Options) → Same at_first (load_routes calls opts at_first).1
  load_routes-Same opts =
      load_routes-cases calls (λ z. Same at_first z.1) opts file-Same (λ routes. (refl, refl))

  abbrev Serves : Options → Ended → Type 0
  Serves opts e =
      (rs : List Route) × ((load_routes calls opts at_first).0 ≡ ok rs)
      × (rs ≢ [])
      × All (λ r. validate_route (some r) ≡ ok tt) rs
      × ((cs : List RouteCtx) × Started calls 0 rs cs × (e.route_effects ≡ ended_from calls 0 cs))
      × (calls.dispatch_ok ≡ true)

  run-Serves :
      (opts : Options)
      → (finish calls (run calls opts)).exit_code ≡ 0
      → Serves opts (finish calls (run calls opts))
  unfolding run finish out
  run-Serves opts =
      by_ran (with_routes calls opts.worker_count (load_routes calls opts at_first)) refl
    where
      by_ran :
          (o : Ran)
          → with_routes calls opts.worker_count (load_routes calls opts at_first) ≡ o
          → (finish calls o).exit_code ≡ 0
          → Serves opts (finish calls o)
      by_ran (goto_out w) ran code = cc
      by_ran (runs_on w) ran code =
          let (rs, loaded, some_route, (valid, started, kept), looped) =
            with_routes-Served opts.worker_count (load_routes calls opts at_first).0
              (load_routes calls opts at_first).1 w (load_routes-Same opts) ran in
          let all : ended_from calls 0 w.ctxs ++ w.failed ≡ ended_from calls 0 w.ctxs =
            ap (λ z. ended_from calls 0 w.ctxs ++ z) kept
            ∙ append-nil (ended_from calls 0 w.ctxs) in
          (rs, loaded, some_route, valid, (w.ctxs, started, all), looped)

  -- Where main goes on behind its command line, it exits with 0 only if the routes were loaded, there
  -- is at least one, every one of them is valid, start_route has returned 0 for each, in order, and
  -- the event loop has returned 0; then the effects of the contexts that these calls gave, worked on
  -- and freed, are all that there are.
  pub main-serves :
      (argv : List Bytes) (opts : Options)
      → parse_options calls.options argv ≡ proceeds opts
      → (main calls argv).exit_code ≡ 0
      → (rs : List Route) × ((load_routes calls opts at_first).0 ≡ ok rs)
        × (rs ≢ [])
        × All (λ r. validate_route (some r) ≡ ok tt) rs
        × ((cs : List RouteCtx) × Started calls 0 rs cs
            × ((main calls argv).route_effects ≡ ended_from calls 0 cs))
        × (calls.dispatch_ok ≡ true)
  unfolding main with_options
  main-serves argv opts parsed =
      let ends : main calls argv ≡ finish calls (run calls opts) = ap (with_options calls) parsed in
      subst (λ e. e.exit_code ≡ 0 → Serves opts e) (sym ends) (run-Serves opts)
