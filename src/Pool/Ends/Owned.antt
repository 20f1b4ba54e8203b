-- ===== src/Pool/Ends/Owned.antt =====
-- The clients in the queues at the end of the worker pool of src/worker_pool.c.
use tinyproxy.Base.{
  ℕ, ◌≡◌, false, refl, sym, ap, ◌∙◌, List, [], ◌∷◌, ◌++◌, append_assoc, append-nil,
}
use tinyproxy.Worker.{Worker, Sent, worker_stop, worker_join, worker_free}
use tinyproxy.Worker.Sockets.{all_owned, left_by, join-left, stop-left, worker_free-owned}
use tinyproxy.Pool.{WorkerPool, no_workers}
use tinyproxy.Pool.Ends.{
  stop_workers, worker_pool_stop, join_workers, worker_pool_join, free_workers, worker_pool_free,
}

-- The sockets of the clients that are in the queues when the threads have ended, worker by worker:
-- those of each started worker's queue behind the messages that its thread has finished, and all of
-- the queue of a worker that is not started.
unfoldable pub queued : (ℕ → ℕ) → List Worker → List ℕ
queued finished [] = []
queued finished (w ∷ ws) = all_owned (left_by finished w) ++ queued finished ws

free_workers-owned :
    (finished : ℕ → ℕ) (sent : Sent) (ws : List Worker) (closed : List ℕ)
    → free_workers finished sent ws closed ≡ closed ++ queued finished ws
unfolding free_workers queued
free_workers-owned finished sent [] closed = sym (append-nil closed)
free_workers-owned finished sent (w ∷ ws) closed =
    free_workers-owned finished sent ws (worker_free finished sent w closed).1
    ∙ ap (λ z. z ++ queued finished ws) (worker_free-owned finished sent w closed).0
    ∙ append_assoc closed (all_owned (left_by finished w)) (queued finished ws)

-- A second worker_join does nothing.
still-left : (finished : ℕ → ℕ) (w : Worker) → w.started ≡ false → left_by finished w ≡ w.pending
still-left finished w still = rw still refl

ended-queued :
    (finished : ℕ → ℕ) (sent : Sent) (ws : List Worker)
    → queued finished (join_workers finished (stop_workers sent ws)) ≡ queued finished ws
unfolding queued join_workers stop_workers
ended-queued finished sent [] = refl
ended-queued finished sent (w ∷ ws) =
    let (left, still) = join-left finished (worker_stop sent w) in
    let same : left_by finished (worker_join finished (worker_stop sent w)) ≡ left_by finished w =
      still-left finished (worker_join finished (worker_stop sent w)) still
      ∙ left
      ∙ stop-left finished sent w in
    ap (λ z. all_owned z ++ queued finished (join_workers finished (stop_workers sent ws))) same
    ∙ ap (λ z. all_owned (left_by finished w) ++ z) (ended-queued finished sent ws)

-- When the pool was stopped and joined and is freed, each client has its socket closed that is in a
-- queue when the threads have ended, once and in order: in the queue of a started worker behind the
-- messages that its thread has finished, or in the queue of a worker that was not started. No other
-- socket of a client is closed, and the pool has no workers.
pub worker_pool_free-owned :
    (finished : ℕ → ℕ) (sent : Sent) (pool : WorkerPool) (closed : List ℕ)
    → worker_pool_free finished sent (worker_pool_join finished (worker_pool_stop sent pool)) closed
      ≡ (no_workers, closed ++ queued finished pool.workers)
unfolding worker_pool_free worker_pool_join worker_pool_stop
worker_pool_free-owned finished sent pool closed =
    ap (λ z. (no_workers, z))
      (free_workers-owned finished sent _ closed
        ∙ ap (λ z. closed ++ z) (ended-queued finished sent pool.workers))
