-- ===== src/Program/Order.antt =====
-- The order in which main of src/tinyproxy.c starts and releases its parts: what each call needs.
pub mod Releases
use tinyproxy.Base.{
  subst, inl, inr, Bool-cases, length-append, ℕ, zero, suc, ◌+◌, ◌==◌, ◌≡◌, ◌≢◌, refl, ◌∙◌, ap, sym,
  Bool, true, false, not, ◌&&◌, List, [], ◌∷◌, ◌++◌, append_assoc, append-nil, Option, none, some,
  ltb, if◌then◌else◌, arith, Bytes, length, Errno, enomem, Result, ok, err,
}
use tinyproxy.Datagram.{Effects}
use tinyproxy.Text.{is_nil}
use tinyproxy.Conf.File.{load_routes_from_file}
use tinyproxy.Program.CommandLine.{Options, Parsed, exits, proceeds, parse_options}
use tinyproxy.Program.Signals.{setup_signal_handlers}
use tinyproxy.Pool.{no_workers, worker_pool_init, WorkerPool, worker_pool_start}
use tinyproxy.Runtime.{RouteCtx, start_route, free_route}
use tinyproxy.Route.{Route, validate_route}
use tinyproxy.Program.{Ended, stops_from, frees_from, out_actions, out, finish, with_options, main}
use tinyproxy.Program.Start.{
  load_routes, file_routes, inline_routes_from, with_routes, with_signals, make_pool, make_base,
  make_route_ctxs, start_signals, at_first, did, with_workers, with_pool, start_workers, Action,
  alloc_routes, alloc_route_ctxs, new_base, setup_signals, init_pool, start_pool, dispatch, start,
  stop_listeners, free_ctx, stop_pool, join_pool, free_pool, free_signals, free_route_ctxs,
  free_base, free_routes, ProgramCalls, World, Ran, ◌>>=◌, nothing_done, run_loop, start_one,
  start_routes_from, if_valid, with_route, goto_out, runs_on, run,
}

-- The pool is not there, or its threads do not run, or they run, or they were told to stop.
pub data PoolState : Type 0 where
  absent idle running stopping : PoolState

-- What is there, and how many contexts of routes were started, stopped to listen, and freed.
pub record Live : Type 0 where
  pub routes : Bool
  pub ctxs : Bool
  pub base : Bool
  pub signals : Bool
  pub pool : PoolState
  pub started : ℕ
  pub stopped : ℕ
  pub freed : ℕ

abbrev pub nothing_live : Live
nothing_live = record {
  routes = false;
  ctxs = false;
  base = false;
  signals = false;
  pool = absent;
  started = 0;
  stopped = 0;
  freed = 0;
}

abbrev is_running : PoolState → Bool
is_running running = true
is_running _ = false

abbrev is_idle : PoolState → Bool
is_idle idle = true
is_idle _ = false

abbrev is_absent : PoolState → Bool
is_absent absent = true
is_absent _ = false

abbrev is_stopping : PoolState → Bool
is_stopping stopping = true
is_stopping _ = false

-- What each call needs. A route is started while the workers run, and it is freed when it does not
-- listen and no worker runs, and before the pool, the events, the contexts and the routes that it uses.
unfoldable pub allowed : Action → Live → Bool
allowed alloc_routes l = not l.routes
allowed alloc_route_ctxs l = l.routes && not l.ctxs
allowed new_base l = not l.base
allowed setup_signals l = l.base && not l.signals
allowed init_pool l = is_absent l.pool
allowed start_pool l = is_idle l.pool
allowed dispatch l = l.base && is_running l.pool
allowed (start i) l =
    i == l.started && l.stopped == 0 && l.routes && l.ctxs && l.base && is_running l.pool
allowed (stop_listeners i) l = i == l.stopped && ltb i l.started
allowed stop_pool l = is_running l.pool && l.stopped == l.started
allowed join_pool l = is_stopping l.pool
allowed (free_ctx i) l = i == l.freed && ltb i l.stopped && is_idle l.pool
allowed free_pool l = is_idle l.pool && l.freed == l.started
allowed free_signals l = l.signals && l.base
allowed free_route_ctxs l = l.ctxs && l.freed == l.started && is_absent l.pool
allowed free_base l = l.base && not l.signals && l.freed == l.started && is_absent l.pool
allowed free_routes l = l.routes && not l.ctxs

unfoldable pub done_by : Action → Live → Live
done_by alloc_routes l = record l { routes = true }
done_by alloc_route_ctxs l = record l { ctxs = true }
done_by new_base l = record l { base = true }
done_by setup_signals l = record l { signals = true }
done_by init_pool l = record l { pool = idle }
done_by start_pool l = record l { pool = running }
done_by dispatch l = l
done_by (start i) l = record l { started = l.started + 1 }
done_by (stop_listeners i) l = record l { stopped = l.stopped + 1 }
done_by stop_pool l = record l { pool = stopping }
done_by join_pool l = record l { pool = idle }
done_by (free_ctx i) l = record l { freed = l.freed + 1 }
done_by free_pool l = record l { pool = absent }
done_by free_signals l = record l { signals = false }
done_by free_route_ctxs l = record l { ctxs = false }
done_by free_base l = record l { base = false }
done_by free_routes l = record l { routes = false }

-- The calls in order; `none` where one is not allowed.
unfoldable pub replay : List Action → Live → Option Live
unfolding allowed done_by
replay [] l = some l
replay (a ∷ rest) l = let after = replay rest (done_by a l) in if allowed a l then after else none

-- Nothing is left, and each context that was started was stopped and freed.
abbrev pub IsReleased : Live → Type 0
IsReleased l =
    (l.routes ≡ false)
    × (l.ctxs ≡ false)
    × (l.base ≡ false)
    × (l.signals ≡ false)
    × (l.pool ≡ absent)
    × (l.stopped ≡ l.started)
    × (l.freed ≡ l.started)

pub nothing_live-IsReleased : IsReleased nothing_live
nothing_live-IsReleased = (refl, refl, refl, refl, refl, refl, refl)

-- The calls are allowed one after the other, and leave nothing.
abbrev pub Releases : List Action → Type 0
Releases actions = (l : Live) × (replay actions nothing_live ≡ some l) × IsReleased l

some-inj : {l m : Live} → some l ≡ some m → l ≡ m
some-inj h = cc

no_none : {l : Live} → none ≢ some l
no_none h = cc

pub replay-then :
    (xs ys : List Action) (l m : Live) {r : Option Live}
    → replay xs l ≡ some m
    → replay ys m ≡ r
    → replay (xs ++ ys) l ≡ r
unfolding replay
replay-then [] ys l m {r} first second = subst (λ z. replay ys z ≡ r) (some-inj (sym first)) second
replay-then (x ∷ xs) ys l m {r} first second = elim (Bool-cases (allowed x l)) [
  | inl fits ↦ rw fits (
      replay-then xs ys (done_by x l) m
        (subst (λ b. (if b then replay xs (done_by x l) else none) ≡ some m) fits first) second)
  | inr refused ↦
      absurd (
        no_none (subst (λ b. (if b then replay xs (done_by x l) else none) ≡ some m) refused first))
]

-- Everything is there, with so many contexts started, stopped and freed.
abbrev pub all_live : PoolState → ℕ → ℕ → ℕ → Live
all_live pool started stopped freed = record {
  routes = true;
  ctxs = true;
  base = true;
  signals = true;
  pool = pool;
  started = started;
  stopped = stopped;
  freed = freed;
}

pub stops_from-lem :
    (cs : List RouteCtx) (i n : ℕ)
    → i + length cs ≡ n
    → replay (stops_from i cs) (all_live running n i 0) ≡ some (all_live running n n 0)
unfolding replay stops_from allowed done_by
stops_from-lem [] i n h = let all : i ≡ n = omega arith in rw all refl
stops_from-lem (c ∷ cs) i n h =
    let ready : (i == i && ltb i n) ≡ true = ground arith in
    rw ready (stops_from-lem cs (i + 1) n (omega arith))

pub frees_from-lem :
    (cs : List RouteCtx) (i n : ℕ)
    → i + length cs ≡ n
    → replay (frees_from i cs) (all_live idle n n i) ≡ some (all_live idle n n n)
unfolding replay frees_from allowed done_by
frees_from-lem [] i n h = let all : i ≡ n = omega arith in rw all refl
frees_from-lem (c ∷ cs) i n h =
    let ready : (i == i && ltb i n && true) ≡ true = ground arith in
    rw ready (frees_from-lem cs (i + 1) n (omega arith))
