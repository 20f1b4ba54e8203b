-- ===== src/Program/Order/Releases.antt =====
-- The calls of main of src/tinyproxy.c, in the terms of Program.Order.
use tinyproxy.Base.{
  length-append, ℕ, ◌+◌, ◌==◌, ◌≡◌, refl, Bool, true, false, List, [], ◌∷◌, ◌++◌, Option, none,
  some, if◌then◌else◌, arith, Bytes, length, Errno, Result, ok, err,
}
use tinyproxy.Datagram.{Effects}
use tinyproxy.Program.CommandLine.{Options, Parsed, exits, proceeds, parse_options}
use tinyproxy.Program.Signals.{setup_signal_handlers}
use tinyproxy.Pool.{no_workers, worker_pool_init, WorkerPool, worker_pool_start}
use tinyproxy.Runtime.{RouteCtx, start_route, free_route}
use tinyproxy.Route.{Route, validate_route}
use tinyproxy.Program.{stops_from, frees_from, out_actions, out, finish, with_options, main}
use tinyproxy.Program.Loaded.{load_routes-cases}
use tinyproxy.Program.Start.{
  file_routes, with_routes, with_signals, make_pool, make_base, make_route_ctxs, start_signals,
  at_first, did, with_workers, with_pool, start_workers, Action, alloc_routes, alloc_route_ctxs,
  new_base, setup_signals, init_pool, dispatch, start, stop_pool, join_pool, free_pool,
  free_signals, free_route_ctxs, free_base, free_routes, ProgramCalls, World, Ran, ◌>>=◌,
  nothing_done, run_loop, start_one, start_routes_from, if_valid, with_route, goto_out, runs_on,
  run,
}
use tinyproxy.Program.Order.{
  absent, idle, running, nothing_live, allowed, done_by, replay, nothing_live-IsReleased, Releases,
  replay-then, all_live, stops_from-lem, frees_from-lem,
}

module _ (calls : ProgramCalls) where
  -- A world in which everything is there, with the contexts `cs`.
  abbrev serving : List RouteCtx → List Effects → WorkerPool → List Action → World
  serving cs failed pool actions = record {
    has_routes = true;
    has_ctxs = true;
    ctxs = cs;
    failed = failed;
    has_base = true;
    signals_started = true;
    worker_pool_ready = true;
    worker_pool_started = true;
    pool = pool;
    actions = actions;
  }

  abbrev joined : List RouteCtx → List Action
  joined cs =
      stop_pool
      ∷ join_pool
      ∷ (frees_from 0 cs
          ++ free_pool ∷ free_signals ∷ free_route_ctxs ∷ free_base ∷ free_routes ∷ [])

  Kept : List RouteCtx → List Action → Type 0
  Kept cs actions = replay actions nothing_live ≡ some (all_live running (length cs) 0 0)

  serving-Releases :
      (code : ℕ) (cs : List RouteCtx) (failed : List Effects) (pool : WorkerPool)
      (actions : List Action)
      → Kept cs actions
      → Releases (out calls code (serving cs failed pool actions)).calls
  unfolding Kept out out_actions replay allowed done_by
  serving-Releases code cs failed pool actions kept =
      let n = length cs in
      let stops = stops_from-lem cs 0 n (omega arith) in
      let equal : (n == n) ≡ true = ground arith in
      let frees = frees_from-lem cs 0 n (omega arith) in
      (
        record (all_live absent n n n) {
          routes = false;
          ctxs = false;
          base = false;
          signals = false;
        },
        replay-then actions (stops_from 0 cs ++ joined cs) nothing_live (all_live running n 0 0)
            kept
            (replay-then (stops_from 0 cs) (joined cs) (all_live running n 0 0)
              (all_live running n n 0) stops
              (rw equal (
                replay-then (frees_from 0 cs) _ (all_live idle n n 0) (all_live idle n n n) frees
                  (rw equal refl)))),
        (refl, refl, refl, refl, refl, refl, refl),
      )

  Ends : Ran → Type 0
  Ends r = Releases (finish calls r).calls

  Kept-did :
      (cs ds : List RouteCtx) (actions : List Action) (a : Action)
      → Kept cs actions
      → replay (a ∷ []) (all_live running (length cs) 0 0) ≡ some (all_live running (length ds) 0 0)
      → Kept ds (actions ++ a ∷ [])
  unfolding Kept
  Kept-did cs ds actions a kept next =
      replay-then actions (a ∷ []) nothing_live (all_live running (length cs) 0 0) kept next

  loop-Ends :
      (cs : List RouteCtx) (failed : List Effects) (pool : WorkerPool) (actions : List Action)
      → Kept cs actions
      → Ends (run_loop calls (serving cs failed pool actions))
  unfolding Ends run_loop replay allowed done_by finish out
  loop-Ends cs failed pool actions kept = by_rc calls.dispatch_ok
    where
      after : Kept cs (actions ++ dispatch ∷ [])
      after = Kept-did cs cs actions dispatch kept refl

      w : World
      w = serving cs failed pool (actions ++ dispatch ∷ [])

      by_rc : (b : Bool) → Ends (if b then runs_on w else goto_out w)
      by_rc true = serving-Releases 0 cs failed pool _ after
      by_rc false = serving-Releases 1 cs failed pool _ after

  start-Ends :
      (rs : List Route) (i : ℕ) (cs : List RouteCtx) (failed : List Effects) (pool : WorkerPool)
      (actions : List Action)
      → i ≡ length cs
      → Kept cs actions
      → Ends (start_routes_from calls i rs (serving cs failed pool actions) >>= run_loop calls)
  unfolding start_routes_from start_one Ends replay allowed done_by finish out
  start-Ends [] i cs failed pool actions at kept = loop-Ends cs failed pool actions kept
  start-Ends (r ∷ rs) i cs failed pool actions at kept =
      by_valid (validate_route (some r))
        (start_route (calls.stat i) (calls.stream_calls i) (calls.datagram_calls i) r nothing_done)
        (λ c.
          start-Ends rs (i + 1) (cs ++ c ∷ []) failed pool (actions ++ start i ∷ [])
            (omega (arith, at, length-append cs (c ∷ []))) (started c))
    where
      w : World
      w = serving cs failed pool actions

      next : World → Ran
      next = start_routes_from calls (i + 1) rs

      started : (c : RouteCtx) → Kept (cs ++ c ∷ []) (actions ++ start i ∷ [])
      started c =
          let more : length (cs ++ c ∷ []) ≡ length cs + 1 =
            omega (arith, length-append cs (c ∷ [])) in
          let first : (i == length cs) ≡ true = ground arith in
          Kept-did cs (cs ++ c ∷ []) actions (start i) kept (rw (first, more) refl)

      by_valid :
          (v : Result (Unit {0})) (o : Option Errno × RouteCtx)
          → ((c : RouteCtx)
              → Ends (
                  next (serving (cs ++ c ∷ []) failed pool (actions ++ start i ∷ []))
                  >>= run_loop calls))
          → Ends (if_valid calls v w (with_route calls i o w) >>= next >>= run_loop calls)
      by_valid (err e) o rest = serving-Releases 1 cs failed pool actions kept
      by_valid (ok u) (some e, c) rest =
          serving-Releases 1 cs (failed ++ free_route (calls.stat i) c ∷ []) pool actions kept
      by_valid (ok u) (none, c) rest = rest c

  -- The parts behind the loading of the routes, on what each call gives.
  abbrev loaded : World
  loaded = did alloc_routes (record at_first { has_routes = true })

  abbrev with_base : World
  with_base =
      did new_base
        (record (did alloc_route_ctxs (record loaded { has_ctxs = true })) { has_base = true })

  abbrev with_signal_events : World
  with_signal_events = did setup_signals (record with_base { signals_started = true })

  abbrev with_workers_of : WorkerPool → World
  with_workers_of pool =
      did init_pool (record with_signal_events { worker_pool_ready = true; pool = pool })

  module _ (r : Route) (rs : List Route) where
    rest : World → Ran
    rest w = start_routes_from calls 0 (r ∷ rs) w >>= run_loop calls

    start_workers-Ends :
        (o : Option Errno × WorkerPool) (pool : WorkerPool)
        → Ends (with_workers calls o (with_workers_of pool) >>= rest)
    unfolding Ends finish out out_actions replay allowed done_by rest Kept
    start_workers-Ends (some e, now) pool = (nothing_live, refl, nothing_live-IsReleased)
    start_workers-Ends (none, now) pool = start-Ends (r ∷ rs) 0 [] [] now _ refl refl

    make_pool-Ends :
        (o : Option Errno × WorkerPool)
        → Ends (with_pool calls o with_signal_events >>= (λ w. start_workers calls w >>= rest))
    unfolding Ends finish out out_actions replay allowed done_by rest start_workers
    make_pool-Ends (some e, now) = (nothing_live, refl, nothing_live-IsReleased)
    make_pool-Ends (none, now) =
        start_workers-Ends (worker_pool_start calls.pool_create calls.finished calls.sent now) now

    with_signals-Ends :
        (count : ℕ) (o : Option (List Bool))
        → Ends (
            with_signals calls o with_base
            >>= (λ w. make_pool calls count w >>= (λ v. start_workers calls v >>= rest)))
    unfolding Ends finish out out_actions replay allowed done_by make_pool
    with_signals-Ends count (some frees) = (nothing_live, refl, nothing_live-IsReleased)
    with_signals-Ends count none =
        make_pool-Ends (worker_pool_init calls.pool_calloc calls.pool_resources count no_workers)

    with_routes-Ends : (count : ℕ) → Ends (with_routes calls count (ok (r ∷ rs), loaded))
    unfolding Ends finish out out_actions replay allowed done_by with_routes make_route_ctxs
        make_base start_signals rest
    with_routes-Ends count = by_ctxs calls.ctxs_calloc
      where
        after_base : World → Ran
        after_base w =
            start_signals calls w
            >>= (λ v. make_pool calls count v >>= (λ u. start_workers calls u >>= rest))

        with_ctxs : World
        with_ctxs = did alloc_route_ctxs (record loaded { has_ctxs = true })

        by_base :
            (b : Bool) → Ends ((if b then runs_on with_base else goto_out with_ctxs) >>= after_base)
        by_base true = with_signals-Ends count (setup_signal_handlers calls.signals)
        by_base false = (nothing_live, refl, nothing_live-IsReleased)

        by_ctxs :
            (b : Bool)
            → Ends (
                (if b then runs_on with_ctxs else goto_out loaded)
                >>= (λ w. make_base calls w >>= after_base))
        by_ctxs true = by_base calls.base_new
        by_ctxs false = (nothing_live, refl, nothing_live-IsReleased)

  loaded-Ends :
      (count : ℕ) (routes : Result (List Route)) → Ends (with_routes calls count (routes, loaded))
  unfolding Ends finish out out_actions replay allowed done_by with_routes
  loaded-Ends count (err e) = (nothing_live, refl, nothing_live-IsReleased)
  loaded-Ends count (ok []) = (nothing_live, refl, nothing_live-IsReleased)
  loaded-Ends count (ok (r ∷ rs)) = with_routes-Ends r rs count

  file-Ends :
      (count : ℕ) (o : Option (Result (List Route)))
      → Ends (with_routes calls count (file_routes calls o at_first))
  unfolding Ends finish out out_actions replay allowed done_by with_routes
  file-Ends count none = (nothing_live, refl, nothing_live-IsReleased)
  file-Ends count (some (err e)) = (nothing_live, refl, nothing_live-IsReleased)
  file-Ends count (some (ok [])) = (nothing_live, refl, nothing_live-IsReleased)
  file-Ends count (some (ok (r ∷ rs))) = loaded-Ends count (ok (r ∷ rs))

  run-Ends : (opts : Options) → Ends (run calls opts)
  unfolding run
  run-Ends opts =
      load_routes-cases calls (λ z. Ends (with_routes calls opts.worker_count z)) opts
        (file-Ends opts.worker_count) (loaded-Ends opts.worker_count)

  -- However main ends, and whichever of its calls fail, what it calls is in order: each part is made
  -- before it is used, no route is freed while it listens or while a worker runs, and nothing that it
  -- needs is released before it; and in the end each part that was made is released, once.
  pub main-Releases : (argv : List Bytes) → Releases (main calls argv).calls
  unfolding main with_options Ends replay
  main-Releases argv = by_options (parse_options calls.options argv)
    where
      by_options : (p : Parsed) → Releases (with_options calls p).calls
      by_options (exits code freed) = (nothing_live, refl, nothing_live-IsReleased)
      by_options (proceeds opts) = run-Ends opts
