-- ===== src/Program/Start.antt =====
-- main of src/tinyproxy.c from the routes to the event loop.
use tinyproxy.Base.{
  ℕ, ◌+◌, Bool, true, false, not, List, [], ◌∷◌, ◌++◌, Option, none, some, if◌then◌else◌, Bytes,
  Errno, Result, ok, err, enomem, einval,
}
use tinyproxy.Text.{is_nil}
use tinyproxy.Route.{Route, validate_route}
use tinyproxy.Conf.Line.{parse_route_line}
use tinyproxy.Conf.Loader.{Memory}
use tinyproxy.Conf.File.{FileCalls, load_routes_from_file}
use tinyproxy.Worker.{Sent}
use tinyproxy.Pool.{Resources, WorkerPool, no_workers, worker_pool_init, worker_pool_start}
use tinyproxy.Datagram.{Effects}
use tinyproxy.Datagram.Listener.{ListenCalls}
use tinyproxy.Datagram.Lifecycle.{Stat}
use tinyproxy.Stream.{StreamCalls}
use tinyproxy.Runtime.{RouteCtx, start_route, free_route}
use tinyproxy.Program.CommandLine.{OptionCalls, Options}
use tinyproxy.Program.Signals.{SignalCalls, setup_signal_handlers}

-- What main calls for its parts, in order; routes by their index.
pub data Action : Type 0 where
  alloc_routes alloc_route_ctxs new_base setup_signals init_pool start_pool dispatch : Action
  start stop_listeners free_ctx : ℕ → Action
  stop_pool join_pool free_pool free_signals free_route_ctxs free_base free_routes : Action

-- What the calls outside of the sources give. `work` is what the workers make of the context of a
-- route until its listeners are stopped, `work_on` from then until they are joined, and `work_pool`
-- what becomes of the pool until it is stopped; `finished` is as in worker_join. `dispatch_ok` tells whether event_base_dispatch
-- gives 0.
pub record ProgramCalls : Type 0 where
  pub options : OptionCalls
  pub memory : Memory
  pub file : FileCalls
  pub routes_calloc : Bool
  pub strdup : ℕ → Bool
  pub ctxs_calloc : Bool
  pub base_new : Bool
  pub signals : SignalCalls
  pub pool_calloc : Bool
  pub pool_resources : ℕ → Resources
  pub pool_create : ℕ → Option Errno
  pub sent : Sent
  pub stat : ℕ → Stat
  pub stream_calls : ℕ → StreamCalls
  pub datagram_calls : ℕ → ListenCalls
  pub dispatch_ok : Bool
  pub work : ℕ → RouteCtx → RouteCtx
  pub work_on : ℕ → RouteCtx → RouteCtx
  pub work_pool : WorkerPool → WorkerPool
  pub finished : ℕ → ℕ

-- The variables of main that the code at `out` reads. `has_routes`, `has_ctxs` and `has_base` tell
-- whether the pointers are not NULL, and `ctxs` has the first `route_ctx_count` contexts. `failed`
-- has what was done for a route whose start failed.
pub record World : Type 0 where
  pub has_routes : Bool
  pub has_ctxs : Bool
  pub ctxs : List RouteCtx
  pub failed : List Effects
  pub has_base : Bool
  pub signals_started : Bool
  pub worker_pool_ready : Bool
  pub worker_pool_started : Bool
  pub pool : WorkerPool
  pub actions : List Action

abbrev pub at_first : World
at_first = record {
  has_routes = false;
  has_ctxs = false;
  ctxs = [];
  failed = [];
  has_base = false;
  signals_started = false;
  worker_pool_ready = false;
  worker_pool_started = false;
  pool = no_workers;
  actions = [];
}

-- A part of main: a jump to `out`, or the next statement.
pub data Ran : Type 0 where
  goto_out runs_on : World → Ran

abbrev pub ◌>>=◌ : Ran → (World → Ran) → Ran
goto_out w >>= next = goto_out w
runs_on w >>= next = next w

infixl 5 ◌>>=◌
abbrev pub did : Action → World → World
did a w = record w { actions = w.actions ++ a ∷ [] }

abbrev pub nothing_done : Effects
nothing_done = record { opened = []; closed = []; unlinked = []; freed = [] }

module _ (calls : ProgramCalls) where
  -- The inline routes from `i` on. main sets `line_no` first, and parse_route_line sets the whole
  -- route to 0 then.
  unfoldable pub inline_routes_from : ℕ → List Bytes → Result (List Route)
  unfolding parse_route_line
  inline_routes_from i [] = ok []
  inline_routes_from i (line ∷ lines) =
      let rest = inline_routes_from (i + 1) lines in
      if not (calls.strdup i) then err enomem else elim (parse_route_line line) [
        | err e ↦ err e
        | ok r ↦ elim rest [ err e ↦ err e | ok rs ↦ ok (r ∷ rs) ]
      ]

  -- The routes with the world in which they are kept: the array of inline routes is there even if one
  -- of them is refused. A loop that is out of rounds does not occur.
  abbrev pub file_routes : Option (Result (List Route)) → World → Result (List Route) × World
  file_routes none w = (err einval, w)
  file_routes (some (err e)) w = (err e, w)
  file_routes (some (ok [])) w = (ok [], w)
  file_routes (some (ok (r ∷ rs))) w =
      (ok (r ∷ rs), did alloc_routes (record w { has_routes = true }))

  unfoldable pub load_routes : Options → World → Result (List Route) × World
  unfolding inline_routes_from load_routes_from_file
  load_routes opts w =
      if is_nil opts.inline_routes
      then file_routes (load_routes_from_file calls.memory calls.file) w
      else if not calls.routes_calloc
      then (err enomem, w)
      else (
        inline_routes_from 0 opts.inline_routes,
        did alloc_routes (record w { has_routes = true }),
      )

  unfoldable pub make_route_ctxs : World → Ran
  make_route_ctxs w =
      if calls.ctxs_calloc
      then runs_on (did alloc_route_ctxs (record w { has_ctxs = true }))
      else goto_out w

  unfoldable pub make_base : World → Ran
  make_base w =
      if calls.base_new then runs_on (did new_base (record w { has_base = true })) else goto_out w

  abbrev pub with_signals : Option (List Bool) → World → Ran
  with_signals (some frees) w = goto_out w
  with_signals none w = runs_on (did setup_signals (record w { signals_started = true }))

  unfoldable pub start_signals : World → Ran
  unfolding setup_signal_handlers
  start_signals w = with_signals (setup_signal_handlers calls.signals) w

  abbrev pub with_pool : Option Errno × WorkerPool → World → Ran
  with_pool (some e, pool) w = goto_out (record w { pool = pool })
  with_pool (none, pool) w =
      runs_on (did init_pool (record w { worker_pool_ready = true; pool = pool }))

  unfoldable pub make_pool : ℕ → World → Ran
  unfolding worker_pool_init
  make_pool worker_count w =
      with_pool (worker_pool_init calls.pool_calloc calls.pool_resources worker_count w.pool) w

  abbrev pub with_workers : Option Errno × WorkerPool → World → Ran
  with_workers (some e, pool) w = goto_out (record w { pool = pool })
  with_workers (none, pool) w =
      runs_on (did start_pool (record w { worker_pool_started = true; pool = pool }))

  unfoldable pub start_workers : World → Ran
  unfolding worker_pool_start
  start_workers w =
      with_workers (worker_pool_start calls.pool_create calls.finished calls.sent w.pool) w

  abbrev pub with_route : ℕ → Option Errno × RouteCtx → World → Ran
  with_route i (none, c) w = runs_on (did (start i) (record w { ctxs = w.ctxs ++ c ∷ [] }))
  with_route i (some e, c) w =
      goto_out (record w { failed = w.failed ++ free_route (calls.stat i) c ∷ [] })

  abbrev pub if_valid : Result (Unit {0}) → World → Ran → Ran
  if_valid (err e) w started = goto_out w
  if_valid (ok u) w started = started

  -- The body of the loop over the routes.
  unfoldable pub start_one : ℕ → Route → World → Ran
  unfolding validate_route start_route free_route
  start_one i r w = if_valid (validate_route (some r)) w (
      with_route i
        (start_route (calls.stat i) (calls.stream_calls i) (calls.datagram_calls i) r nothing_done)
        w)

  unfoldable pub start_routes_from : ℕ → List Route → World → Ran
  unfolding start_one
  start_routes_from i [] w = runs_on w
  start_routes_from i (r ∷ rs) w = start_one i r w >>= start_routes_from (i + 1) rs

  unfoldable pub run_loop : World → Ran
  run_loop w = if calls.dispatch_ok then runs_on (did dispatch w) else goto_out (did dispatch w)

  unfoldable pub with_routes : ℕ → Result (List Route) × World → Ran
  unfolding make_route_ctxs make_base start_signals make_pool start_workers start_routes_from
      run_loop
  with_routes worker_count (err e, w) = goto_out w
  with_routes worker_count (ok [], w) = goto_out w
  with_routes worker_count (ok (r ∷ rs), w) = do
    w1 ← make_route_ctxs w
    w2 ← make_base w1
    w3 ← start_signals w2
    w4 ← make_pool worker_count w3
    w5 ← start_workers w4
    w6 ← start_routes_from 0 (r ∷ rs) w5
    run_loop w6

  -- From the loading of the routes to `exit_code = 0`.
  unfoldable pub run : Options → Ran
  unfolding load_routes with_routes
  run opts = with_routes opts.worker_count (load_routes opts at_first)
