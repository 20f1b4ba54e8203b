-- ===== src/Program.antt =====
-- main of src/tinyproxy.c: the code at `out`, and the whole program. CommandLine has its options,
-- Start what lies between.
pub mod CommandLine
pub mod Order
pub mod Exit
pub mod Signals
pub mod Loaded
pub mod Sockets
pub mod Start
pub mod Tests
use tinyproxy.Base.{
  ℕ, zero, suc, ◌+◌, Bool, true, false, not, List, [], ◌∷◌, ◌++◌, Option, none, some, if◌then◌else◌,
  Bytes, length, Errno, Result, ok, err, enomem, einval,
}
use tinyproxy.Text.{is_nil}
use tinyproxy.Route.{Route, validate_route}
use tinyproxy.Conf.Line.{parse_route_line}
use tinyproxy.Conf.Loader.{Memory}
use tinyproxy.Conf.File.{FileCalls, load_routes_from_file}
use tinyproxy.Worker.{Sent}
use tinyproxy.Pool.{Resources, WorkerPool, no_workers, worker_pool_init, worker_pool_start}
use tinyproxy.Pool.Ends.{worker_pool_stop, worker_pool_join, worker_pool_free}
use tinyproxy.Datagram.{Effects}
use tinyproxy.Datagram.Listener.{ListenCalls}
use tinyproxy.Datagram.Lifecycle.{Stat}
use tinyproxy.Stream.{StreamCalls}
use tinyproxy.Runtime.{RouteCtx, start_route, stop_route_listeners, free_route}
use tinyproxy.Program.CommandLine.{OptionCalls, Options, Parsed, exits, proceeds, parse_options}
use tinyproxy.Program.Signals.{SignalCalls, setup_signal_handlers}
use tinyproxy.Program.Start.{
  Action, stop_listeners, free_ctx, stop_pool, join_pool, free_pool, free_signals, free_route_ctxs,
  free_base, free_routes, ProgramCalls, World, Ran, goto_out, runs_on, run,
}

-- How main ends: its exit code, what it called, the effects of each route that it tried to start, the
-- sockets of clients that were still in a queue, and whether the array of inline routes was given to
-- free, which it is behind the parts at `out`.
pub record Ended : Type 0 where
  pub exit_code : ℕ
  pub calls : List Action
  pub route_effects : List Effects
  pub queued_closed : List ℕ
  pub inline_freed : Bool

-- The loops at `out`, for the contexts from `i` on.
unfoldable pub stops_from : ℕ → List RouteCtx → List Action
stops_from i [] = []
stops_from i (c ∷ cs) = stop_listeners i ∷ stops_from (i + 1) cs

unfoldable pub frees_from : ℕ → List RouteCtx → List Action
frees_from i [] = []
frees_from i (c ∷ cs) = free_ctx i ∷ frees_from (i + 1) cs

abbrev pub when : Bool → List Action → List Action
when true actions = actions
when false actions = []

module _ (calls : ProgramCalls) where
  -- A context from its start to its end.
  abbrev pub ended_ctx : ℕ → RouteCtx → Effects
  ended_ctx i c =
      free_route (calls.stat i) (calls.work_on i (stop_route_listeners (calls.work i c)))

  unfoldable pub ended_from : ℕ → List RouteCtx → List Effects
  unfolding free_route stop_route_listeners
  ended_from i [] = []
  ended_from i (c ∷ cs) = ended_ctx i c ∷ ended_from (i + 1) cs

  -- The calls at `out`.
  unfoldable pub out_actions : World → List Action
  unfolding stops_from frees_from
  out_actions w =
      stops_from 0 w.ctxs
      ++ (when w.worker_pool_started (stop_pool ∷ join_pool ∷ [])
          ++ (frees_from 0 w.ctxs
              ++ (when w.worker_pool_ready (free_pool ∷ [])
                  ++ (when w.signals_started (free_signals ∷ [])
                      ++ (when w.has_ctxs (free_route_ctxs ∷ [])
                          ++ (when w.has_base (free_base ∷ [])
                              ++ when w.has_routes (free_routes ∷ [])))))))

  abbrev pub joined_pool : World → WorkerPool
  unfolding worker_pool_stop worker_pool_join
  joined_pool w =
      if w.worker_pool_started
      then worker_pool_join calls.finished (worker_pool_stop calls.sent (calls.work_pool w.pool))
      else w.pool

  unfoldable pub out : ℕ → World → Ended
  unfolding out_actions ended_from worker_pool_free
  out exit_code w = record {
    exit_code = exit_code;
    calls = w.actions ++ out_actions w;
    route_effects = ended_from 0 w.ctxs ++ w.failed;
    queued_closed =
        if w.worker_pool_ready
        then (worker_pool_free calls.finished calls.sent (joined_pool w) []).1
        else [];
    inline_freed = true;
  }

  unfoldable pub finish : Ran → Ended
  unfolding out
  finish (goto_out w) = out 1 w
  finish (runs_on w) = out 0 w

  unfoldable pub with_options : Parsed → Ended
  unfolding run finish
  with_options (exits code freed) = record {
    exit_code = code;
    calls = [];
    route_effects = [];
    queued_closed = [];
    inline_freed = freed;
  }
  with_options (proceeds opts) = finish (run calls opts)

  -- The elements behind `argv[0]`.
  unfoldable pub main : List Bytes → Ended
  unfolding parse_options with_options
  main argv = with_options (parse_options calls.options argv)
