-- ===== src/Program/Sockets.antt =====
-- The sockets that the routes of src/tinyproxy.c open by themselves: those of their listeners, of
-- their datagram clients, and the raw ones. The sockets of the connections that workers make for
-- stream routes are not among them.
pub mod Closed
use tinyproxy.Base.{
  ℕ, ◌+◌, ◌≡◌, refl, ap, sym, subst, Bool, true, false, not, List, [], ◌∷◌, ◌++◌, append_assoc,
  append-nil, Option, none, some, if◌then◌else◌, arith, Bytes, length, length-append, All,
  All-append, Errno, enomem, Result, ok, err,
}
use tinyproxy.Text.{is_nil}
use tinyproxy.Route.{Route, validate_route}
use tinyproxy.Conf.File.{load_routes_from_file}
use tinyproxy.Pool.{WorkerPool, worker_pool_init, worker_pool_start}
use tinyproxy.Datagram.{Effects}
use tinyproxy.Datagram.Client.Create.{Balanced}
use tinyproxy.Datagram.Listener.{ListenCalls}
use tinyproxy.Runtime.{RouteCtx, start_route, stop_route_listeners, free_route}
use tinyproxy.Runtime.Ends.{Runs, free_route-no_leak, start_route-closed}
use tinyproxy.Program.CommandLine.{Options, Parsed, exits, proceeds, parse_options}
use tinyproxy.Program.Signals.{setup_signal_handlers}
use tinyproxy.Program.{Ended, ended_ctx, ended_from, out, finish, with_options, main}
use tinyproxy.Program.Start.{
  ProgramCalls, World, at_first, did, start, Ran, goto_out, runs_on, ◌>>=◌, nothing_done,
  load_routes, file_routes, inline_routes_from, make_route_ctxs, make_base, with_signals,
  start_signals, with_pool, make_pool, with_workers, start_workers, with_route, if_valid, start_one,
  start_routes_from, run_loop, with_routes, run, alloc_routes, dispatch,
}

-- Every socket that was opened in a route's effects was closed in them. The sockets of a stream
-- route's connections are not in its effects.
abbrev pub NoLeak : Effects → Type 0
NoLeak fx = Balanced nothing_done fx []

-- What the calls are assumed to do: locks are made, and the workers do with the context of a route
-- only what their callbacks do.
pub record IsRunning (calls : ProgramCalls) : Type 0 where
  pub locks : (i : ℕ) → (calls.datagram_calls i).mutex_init ≡ none
  pub works :
      (i : ℕ) (r : Route) (c : RouteCtx)
      → start_route (calls.stat i) (calls.stream_calls i) (calls.datagram_calls i) r nothing_done
        ≡ (none, c)
      → Runs r c (calls.work i c)
        × Runs r
            (stop_route_listeners (calls.work i c))
            (calls.work_on i (stop_route_listeners (calls.work i c)))

module _ (calls : ProgramCalls) (runs : IsRunning calls) where
  ended_from-append :
      (cs : List RouteCtx) (i : ℕ) (c : RouteCtx)
      → ended_from calls i (cs ++ c ∷ [])
        ≡ ended_from calls i cs ++ ended_ctx calls (i + length cs) c ∷ []
  unfolding ended_from
  ended_from-append [] i c = let here : i + 0 ≡ i = omega arith in rw here refl
  ended_from-append (d ∷ cs) i c =
      let there : i + length (d ∷ cs) ≡ i + 1 + length cs = omega arith in
      rw (there, ended_from-append cs (i + 1) c) refl

  -- The contexts of a world, when they have ended, and the routes that did not start.
  unfoldable pub Good : World → Type 0
  Good w = All NoLeak (ended_from calls 0 w.ctxs) × All NoLeak w.failed

  unfoldable pub GoodRan : Ran → Type 0
  GoodRan (goto_out w) = Good w
  GoodRan (runs_on w) = Good w

  pub bind-Good :
      (r : Ran) (next : World → Ran)
      → GoodRan r
      → ((w : World) → Good w → GoodRan (next w))
      → GoodRan (r >>= next)
  unfolding GoodRan
  bind-Good (goto_out w) next h k = h
  bind-Good (runs_on w) next h k = k w h

  pub if-Good : (b : Bool) (x y : Ran) → GoodRan x → GoodRan y → GoodRan (if b then x else y)
  if-Good true x y h k = h
  if-Good false x y h k = k

  route-Good :
      (i : ℕ) (r : Route) (w : World) → i ≡ length w.ctxs → Good w → GoodRan (start_one calls i r w)
  unfolding Good GoodRan start_one
  route-Good i r w at good =
      by_valid (validate_route (some r))
        (start_route (calls.stat i) (calls.stream_calls i) (calls.datagram_calls i) r nothing_done)
        refl
    where
      by_valid :
          (v : Result (Unit {0})) (o : Option Errno × RouteCtx)
          → start_route
              (calls.stat i)
              (calls.stream_calls i)
              (calls.datagram_calls i)
              r
              nothing_done
            ≡ o
          → GoodRan (if_valid calls v w (with_route calls i o w))
      by_valid (err e) o started = good
      by_valid (ok u) (some e, c) started = (
        good.0,
        All-append NoLeak w.failed _ good.1 (
          start_route-closed (calls.stat i) (calls.stream_calls i) (calls.datagram_calls i) r
              nothing_done (runs.locks i) e c started,
          tt,
        ),
      )
      by_valid (ok u) (none, c) started = (
        rw (ended_from-append w.ctxs 0 c)
            (All-append NoLeak (ended_from calls 0 w.ctxs) _ good.0 (last, tt)),
        good.1,
      )
        where
          workers :
              Runs r c (calls.work i c)
              × Runs r
                  (stop_route_listeners (calls.work i c))
                  (calls.work_on i (stop_route_listeners (calls.work i c)))
          workers = runs.works i r c started

          last : NoLeak (ended_ctx calls (0 + length w.ctxs) c)
          last =
              let here : i ≡ 0 + length w.ctxs = omega arith in
              subst (λ n. NoLeak (ended_ctx calls n c)) here
                (free_route-no_leak (calls.stat i) (calls.stream_calls i) (calls.datagram_calls i) r
                  nothing_done (runs.locks i) c _ _ started workers.0 workers.1)

  -- The number of contexts grows with the index of the route.
  start_one-length :
      (i : ℕ) (r : Route) (w v : World)
      → start_one calls i r w ≡ runs_on v
      → length v.ctxs ≡ length w.ctxs + 1
  unfolding start_one
  start_one-length i r w v =
      by_valid (validate_route (some r))
        (start_route (calls.stat i) (calls.stream_calls i) (calls.datagram_calls i) r nothing_done)
    where
      by_valid :
          (u : Result (Unit {0})) (o : Option Errno × RouteCtx)
          → if_valid calls u w (with_route calls i o w) ≡ runs_on v
          → length v.ctxs ≡ length w.ctxs + 1
      by_valid (err e) o h = cc
      by_valid (ok u) (some e, c) h = cc
      by_valid (ok u) (none, c) h =
          let same : v ≡ did (start i) (record w { ctxs = w.ctxs ++ c ∷ [] }) = cc in
          rw same (omega (arith, length-append w.ctxs (c ∷ [])))

  pub routes-Good :
      (rs : List Route) (i : ℕ) (w : World)
      → i ≡ length w.ctxs
      → Good w
      → GoodRan (start_routes_from calls i rs w)
  unfolding start_routes_from GoodRan
  routes-Good [] i w at good = good
  routes-Good (r ∷ rs) i w at good =
      by_ran (start_one calls i r w) refl (route-Good i r w at good) (routes-Good rs (i + 1))
    where
      by_ran :
          (o : Ran)
          → start_one calls i r w ≡ o
          → GoodRan o
          → ((v : World)
              → i + 1 ≡ length v.ctxs
              → Good v
              → GoodRan (start_routes_from calls (i + 1) rs v))
          → GoodRan (o >>= start_routes_from calls (i + 1) rs)
      by_ran (goto_out v) ran h rest = h
      by_ran (runs_on v) ran h rest = rest v (omega (arith, at, start_one-length i r w v ran)) h
