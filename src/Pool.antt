-- ===== src/Pool.antt =====
-- src/worker_pool.c, worker_init and worker_start of src/worker.c, and accept_cb of
-- src/stream_listener.c.
pub mod Turns
pub mod Lifecycle
pub mod Accept
pub mod Ends
pub mod Tests
use tinyproxy.Base.{
  ℕ, zero, suc, ◌+◌, ◌%◌, ◌^◌, ◌==◌, Bool, true, false, not, ◌||◌, List, [], ◌∷◌, ◌++◌, Option,
  none, some, ltb, if◌then◌else◌, Bytes, length, get_elem?, Errno, einval, enomem, Result, ok, err,
}
use tinyproxy.Worker.{
  Socket, Worker, Sent, worker_stop, worker_join, worker_enqueue_stream_client, Enqueued,
  sizeof_storage, is_null,
}

-- What the calls of worker_init give: whether event_base_new, event_new and event_add succeed, and
-- the errors of the mutex and of the socket pair.
pub record Resources : Type 0 where
  pub base_new : Bool
  pub mutex_init : Option Errno
  pub socketpair : Option Errno
  pub event_new : Bool
  pub event_add : Bool

abbrev pub fresh : ℕ → Worker
fresh id = record { id = id; started = false; stopping = false; pending = []; notify_bytes = 0 }

abbrev events_of : Resources → ℕ → Result Worker
events_of res id =
    if not res.event_new
    then err enomem
    else if not res.event_add
    then err einval
    else ok (fresh id)

abbrev or_fail : Option Errno → Result Worker → Result Worker
or_fail none rest = rest
or_fail (some e) rest = err e

-- The worker, or the error of the first call that fails.
unfoldable pub worker_init : Resources → ℕ → Result Worker
worker_init res id =
    if not res.base_new
    then err enomem
    else or_fail res.mutex_init (or_fail res.socketpair (events_of res id))

-- `create` is what compat_thread_create gives, `none` for 0.
unfoldable pub worker_start : Option Errno → Worker → Option Errno × Worker
worker_start create w =
    if w.started
    then (none, w)
    else elim create [ none ↦ (none, record w { started = true }) | some e ↦ (some e, w) ]

-- `workers` is empty for the NULL pointer, and `count` is its length.
pub record WorkerPool : Type 0 where
  pub workers : List Worker
  pub next : ℕ

abbrev pub no_workers : WorkerPool
no_workers = record { workers = []; next = 0 }

-- The loop of worker_pool_init with `i` workers made; on an error those made are freed.
pub init_from : (ℕ → Resources) → ℕ → ℕ → Result (List Worker)
init_from res i zero = ok []
init_from res i (suc left) =
    let rest = init_from res (i + 1) left in
    elim (worker_init (res i) (i + 1)) [
      | err e ↦ err e
      | ok w ↦ elim rest [ err e ↦ err e | ok ws ↦ ok (w ∷ ws) ]
    ]

abbrev pool_of : Result (List Worker) → Option Errno × WorkerPool
pool_of (ok ws) = (none, record { workers = ws; next = 0 })
pool_of (err e) = (some e, no_workers)

-- `alloc` tells whether calloc gives memory.
unfoldable pub worker_pool_init :
    Bool → (ℕ → Resources) → ℕ → WorkerPool → Option Errno × WorkerPool
unfolding init_from worker_init
worker_pool_init alloc res count pool =
    if count == 0
    then (some einval, pool)
    else if not alloc
    then (some enomem, no_workers)
    else pool_of (init_from res 0 count)

-- worker_stop, then worker_join, of each worker that was started; `finished` as in worker_join.
unfoldable pub stop_all : (ℕ → ℕ) → Sent → List Worker → List Worker
unfolding worker_stop worker_join
stop_all finished sent [] = []
stop_all finished sent (w ∷ ws) =
    worker_join finished (worker_stop sent w) ∷ stop_all finished sent ws

-- The code of one worker_start: the rest of the loop, or the error with the workers as they are then.
abbrev pub go_on :
    Option Errno → Option Errno × List Worker → List Worker → Option Errno × List Worker
go_on none rest failed = rest
go_on (some e) rest failed = (some e, failed)

-- The loop of worker_pool_start, behind the workers that are `done`.
pub start_from :
    (ℕ → Option Errno) → (ℕ → ℕ) → Sent → List Worker → List Worker → Option Errno × List Worker
unfolding worker_start stop_all
start_from create finished sent done [] = (none, done)
start_from create finished sent done (w ∷ ws) =
    let rest = start_from create finished sent (done ++ (worker_start (create w.id) w).1 ∷ []) ws in
    go_on (worker_start (create w.id) w).0 rest (stop_all finished sent done ++ w ∷ ws)

abbrev is_empty {ℓ} : {A : Type ℓ} → List A → Bool
is_empty [] = true
is_empty (x ∷ xs) = false

unfoldable pub worker_pool_start :
    (ℕ → Option Errno) → (ℕ → ℕ) → Sent → WorkerPool → Option Errno × WorkerPool
unfolding start_from
worker_pool_start create finished sent pool =
    let (rc, ws) = start_from create finished sent [] pool.workers in
    if is_empty pool.workers then (some einval, pool) else (rc, record pool { workers = ws })

-- The index of the worker, or `none` for NULL.
unfoldable pub worker_pool_next : WorkerPool → Option ℕ × WorkerPool
worker_pool_next pool =
    if length pool.workers == 0
    then (none, pool)
    else (some (pool.next % length pool.workers), record pool { next = (pool.next + 1) % 2 ^ 64 })

abbrev pub update : ℕ → Worker → List Worker → List Worker
update i v [] = []
update zero v (w ∷ ws) = v ∷ ws
update (suc i) v (w ∷ ws) = w ∷ update i v ws

-- The end of accept_cb: dispatch_client_fd to the worker at `i`, then its return code.
abbrev pub dispatched : ℕ → ℕ → WorkerPool → Enqueued → WorkerPool × List ℕ
dispatched fd i pool r = (
  record pool { workers = update i r.worker pool.workers },
  elim r.rc [ none ↦ r.closed | some e ↦ r.closed ++ fd ∷ [] ],
)

-- An index out of range does not occur.
abbrev pub dispatch_to :
    Bool
    → Sent
    → ℕ
    → ℕ
    → Option Bytes
    → ℕ
    → ℕ
    → WorkerPool
    → Option Worker
    → List ℕ
    → WorkerPool × List ℕ
dispatch_to alloc sent route fd addr socklen i pool none closed = (pool, closed)
dispatch_to alloc sent route fd addr socklen i pool (some w) closed =
    dispatched fd i pool
      (worker_enqueue_stream_client alloc sent w route (some fd) addr socklen closed)

abbrev pub to_next :
    Bool → Sent → ℕ → ℕ → Option Bytes → ℕ → Option ℕ × WorkerPool → List ℕ → WorkerPool × List ℕ
to_next alloc sent route fd addr socklen (none, pool) closed = (pool, closed ++ fd ∷ [])
to_next alloc sent route fd addr socklen (some i, pool) closed =
    dispatch_to alloc sent route fd addr socklen i pool (get_elem? pool.workers i) closed

-- The pool, and the client sockets that were closed. A negative `socklen` is 0 here: both are
-- refused. `alloc` and `sent` are what calloc and send give in the enqueue.
unfoldable pub accept_cb :
    Bool → Sent → ℕ → ℕ → Option Bytes → ℕ → WorkerPool → List ℕ → WorkerPool × List ℕ
unfolding worker_pool_next worker_enqueue_stream_client
accept_cb alloc sent route fd addr socklen pool closed =
    if is_null addr || socklen == 0 || ltb sizeof_storage socklen
    then (pool, closed ++ fd ∷ [])
    else to_next alloc sent route fd addr socklen (worker_pool_next pool) closed
