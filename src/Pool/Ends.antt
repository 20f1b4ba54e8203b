-- ===== src/Pool/Ends.antt =====
-- The end of the worker pool: worker_pool_stop, worker_pool_join and worker_pool_free of
-- src/worker_pool.c.
pub mod Owned
use tinyproxy.Base.{ℕ, List, [], ◌∷◌}
use tinyproxy.Worker.{Worker, Sent, worker_stop, worker_join, worker_free}
use tinyproxy.Pool.{WorkerPool, no_workers}

unfoldable pub stop_workers : Sent → List Worker → List Worker
unfolding worker_stop
stop_workers sent [] = []
stop_workers sent (w ∷ ws) = worker_stop sent w ∷ stop_workers sent ws

unfoldable pub worker_pool_stop : Sent → WorkerPool → WorkerPool
unfolding stop_workers
worker_pool_stop sent pool = record pool { workers = stop_workers sent pool.workers }

unfoldable pub join_workers : (ℕ → ℕ) → List Worker → List Worker
unfolding worker_join
join_workers finished [] = []
join_workers finished (w ∷ ws) = worker_join finished w ∷ join_workers finished ws

unfoldable pub worker_pool_join : (ℕ → ℕ) → WorkerPool → WorkerPool
unfolding join_workers
worker_pool_join finished pool = record pool { workers = join_workers finished pool.workers }

-- The sockets of clients that were closed.
unfoldable pub free_workers : (ℕ → ℕ) → Sent → List Worker → List ℕ → List ℕ
unfolding worker_free
free_workers finished sent [] closed = closed
free_workers finished sent (w ∷ ws) closed =
    free_workers finished sent ws (worker_free finished sent w closed).1

-- The pool, which is set to 0, and the sockets of clients that were closed.
unfoldable pub worker_pool_free : (ℕ → ℕ) → Sent → WorkerPool → List ℕ → WorkerPool × List ℕ
unfolding free_workers
worker_pool_free finished sent pool closed =
    (no_workers, free_workers finished sent pool.workers closed)
