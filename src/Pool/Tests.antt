-- ===== src/Pool/Tests.antt =====
-- Runs of the worker pool, and its theorems at concrete inputs.
use tinyproxy.Base.{
  ℕ, ◌≡◌, ◌<◌, ◌⊎◌, refl, true, false, if◌then◌else◌, ◌==◌, [], ◌∷◌, Option, none, some, arith,
  codes, Errno, enomem,
}
use tinyproxy.Worker.{WorkerMsg, byte_sent, stream_client}
use tinyproxy.Pool.Ends.{worker_pool_stop, worker_pool_join, worker_pool_free}
use tinyproxy.Pool.Ends.Owned.{queued, worker_pool_free-owned}
use tinyproxy.Pool.{
  Resources, fresh, WorkerPool, no_workers, worker_pool_init, worker_pool_start, worker_pool_next,
  accept_cb,
}
use tinyproxy.Pool.Turns.{after_calls, worker_pool_next-once}
use tinyproxy.Pool.Lifecycle.{
  workers_from, AllOrNone, Lacks, worker_pool_start-AllOrNone, Lacks, worker_pool_init-cases,
}
use tinyproxy.Pool.Accept.{Fate, accept_cb-Fate}

abbrev plenty : ℕ → Resources
plenty i = record {
  base_new = true;
  mutex_init = none;
  socketpair = none;
  event_new = true;
  event_add = true;
}

abbrev three : WorkerPool
three = record { workers = fresh 1 ∷ fresh 2 ∷ fresh 3 ∷ []; next = 0 }

three_made : worker_pool_init true plenty 3 no_workers ≡ (none, three)
unfolding worker_pool_init
three_made = refl

-- A thread for the third worker is refused.
abbrev create : ℕ → Option Errno
create id = if id == 3 then some enomem else none

worker_pool_next-once_example :
    (k : ℕ) × (k < 3)
    × ((worker_pool_next (after_calls k (record three { next = 7 }))).0 ≡ some 2)
    × ((j : ℕ)
        → j < 3
        → (worker_pool_next (after_calls j (record three { next = 7 }))).0 ≡ some 2
        → j ≡ k)
worker_pool_next-once_example =
    worker_pool_next-once (record three { next = 7 }) 2 (omega arith) (omega arith)

abbrev two : ℕ
two = 2

worker_pool_init-cases_example :
    ((0 < 2)
      × (worker_pool_init true plenty 2 three
          ≡ (none, record { workers = workers_from 0 2; next = 0 })))
    ⊎ ((e : Errno) × (((two ≡ 0) × (worker_pool_init true plenty 2 three ≡ (some e, three)))
          ⊎ (((true ≡ false) ⊎ Lacks plenty 0 2 e)
              × (worker_pool_init true plenty 2 three ≡ (some e, no_workers)))))
worker_pool_init-cases_example = worker_pool_init-cases true plenty two three

worker_pool_start-AllOrNone_example : AllOrNone three.workers (
  (worker_pool_start create (λ id. 0) byte_sent three).0,
  (worker_pool_start create (λ id. 0) byte_sent three).1.workers,
)
worker_pool_start-AllOrNone_example =
    worker_pool_start-AllOrNone create (λ id. 0) byte_sent three (refl, (refl, (refl, tt)))
      (omega arith)

accept_cb-Fate_example :
    Fate 0 9 (codes "peer") three [] (accept_cb true byte_sent 0 9 (some (codes "peer")) 4 three [])
accept_cb-Fate_example = accept_cb-Fate true byte_sent 0 9 (some (codes "peer")) 4 three []

-- A client that is accepted for a stopping worker has its socket closed twice.
closed_twice :
    (accept_cb true byte_sent 0 9
      (some (codes "peer"))
      4
      (record { workers = record (fresh 1) { stopping = true } ∷ []; next = 0 })
      []).1
    ≡ 9 ∷ 9 ∷ []
unfolding accept_cb
closed_twice = refl

abbrev waiting : ℕ → WorkerMsg
waiting fd = stream_client (record { route = 1; fd = some fd; peer_addr = [] })

-- Both workers have two clients; the first runs, and the second was not started.
abbrev two_wait : WorkerPool
two_wait = record three {
  workers =
      record (fresh 1) { started = true; pending = waiting 6 ∷ waiting 7 ∷ [] }
      ∷ record (fresh 2) { pending = waiting 8 ∷ waiting 9 ∷ [] }
      ∷ [];
}

-- The first worker's thread ends behind its first client.
abbrev finished : ℕ → ℕ
finished id = 1

-- The sockets 7, 8 and 9 are left.
two_wait_left : queued finished two_wait.workers ≡ 7 ∷ 8 ∷ 9 ∷ []
unfolding queued
two_wait_left = refl

worker_pool_free-owned_example :
    worker_pool_free finished byte_sent
      (worker_pool_join finished (worker_pool_stop byte_sent two_wait))
      (5 ∷ [])
    ≡ (no_workers, 5 ∷ queued finished two_wait.workers)
worker_pool_free-owned_example = worker_pool_free-owned finished byte_sent two_wait (5 ∷ [])
