-- ===== src/Pool/Accept.antt =====
-- What accept_cb of src/stream_listener.c does with the client's socket.
use tinyproxy.Base.{
  ℕ, zero, suc, ◌+◌, ◌%◌, ◌^◌, ◌<◌, ◌≡◌, refl, ap, Bool, true, false, ◌⊎◌, inl, inr, List, [], ◌∷◌,
  ◌++◌, append_assoc, Option, some, ltb, ◌==◌, ◌||◌, arith, Bool-cases, Bytes, length, get_elem?,
  get_elem?-some,
}
use native.Mathlib.Nat.{mod-lt}
use tinyproxy.Worker.{stream_client, Worker, Sent, is_null, sizeof_storage, copied, Enqueued}
use tinyproxy.Worker.Sockets.{Handed, Cancelled, Kept, enqueue_client_cases}
use tinyproxy.Pool.{WorkerPool, worker_pool_next, update, dispatched, accept_cb}

-- The worker at `i`, whose turn it is, owns the socket, behind those it had; no other worker and no closed socket
-- changes.
abbrev pub Queued : ℕ → ℕ → Bytes → WorkerPool → List ℕ → WorkerPool × List ℕ → Type 0
Queued route fd peer pool closed (after, now_closed) =
    (i : ℕ) × (w v : Worker) × (i ≡ pool.next % length pool.workers)
    × (get_elem? pool.workers i ≡ some w)
    × (w.stopping ≡ false)
    × (v.pending
        ≡ w.pending
          ++ stream_client (record { route = route; fd = some fd; peer_addr = peer }) ∷ [])
    × (after.workers ≡ update i v pool.workers)
    × (now_closed ≡ closed)

-- The socket was closed once, and no worker has changed.
abbrev pub Closed : ℕ → WorkerPool → List ℕ → WorkerPool × List ℕ → Type 0
Closed fd pool closed (after, now_closed) =
    (after.workers ≡ pool.workers) × (now_closed ≡ closed ++ fd ∷ [])

-- The worker whose turn it is was stopping, and the socket was closed twice.
abbrev pub ClosedTwice : ℕ → WorkerPool → List ℕ → WorkerPool × List ℕ → Type 0
ClosedTwice fd pool closed (after, now_closed) =
    (i : ℕ) × (w : Worker) × (i ≡ pool.next % length pool.workers)
    × (get_elem? pool.workers i ≡ some w)
    × (w.stopping ≡ true)
    × (after.workers ≡ pool.workers)
    × (now_closed ≡ closed ++ fd ∷ fd ∷ [])

abbrev pub Fate : ℕ → ℕ → Bytes → WorkerPool → List ℕ → WorkerPool × List ℕ → Type 0
Fate route fd peer pool closed r =
    Queued route fd peer pool closed r ⊎ (Closed fd pool closed r ⊎ ClosedTwice fd pool closed r)

update-same : (i : ℕ) (w : Worker) (ws : List Worker) → get_elem? ws i ≡ some w → update i w ws ≡ ws
update-same i w [] e = refl
update-same zero w (v ∷ ws) e = cc
update-same (suc i) w (v ∷ ws) e = ap (◌∷◌ v) (update-same i w ws e)

module _ (route fd : ℕ) (peer : Bytes) (pool : WorkerPool) (closed : List ℕ) where
  dispatched-Fate :
      (alloc : Bool) (i : ℕ) (w : Worker) (socklen n : ℕ) (r : Enqueued)
      → i ≡ pool.next % length pool.workers
      → get_elem? pool.workers i ≡ some w
      → Handed w route peer fd closed r ⊎ (Cancelled w fd closed r ⊎ Kept alloc w socklen closed r)
      → Fate route fd peer pool closed (dispatched fd i (record pool { next = n }) r)
  dispatched-Fate alloc i w socklen n r turn at (inl (rc, running, pending, same)) =
      rw rc (inl (i, w, r.worker, turn, at, running, pending, refl, same))
  dispatched-Fate alloc i w socklen n r turn at (inr (inl (rc, stopping, same, now))) =
      rw (rc, same, now)
        (inr (
          inr (
            i,
            w,
            turn,
            at,
            stopping,
            update-same i w pool.workers at,
            append_assoc closed (fd ∷ []) (fd ∷ []),
          )))
  dispatched-Fate alloc i w socklen n r turn at (inr (inr (inl (rc, why), same, now))) =
      rw (rc, same, now) (inr (inl (update-same i w pool.workers at, refl)))
  dispatched-Fate alloc i w socklen n r turn at (inr (inr (inr (rc, why), same, now))) =
      rw (rc, same, now) (inr (inl (update-same i w pool.workers at, refl)))

-- An accepted socket is in the queue of one worker that is not stopping, behind its other messages,
-- or it was closed once; except where the worker whose turn it is is stopping, and the socket was
-- closed twice.
pub accept_cb-Fate :
    (alloc : Bool) (sent : Sent) (route fd : ℕ) (addr : Option Bytes) (socklen : ℕ)
    (pool : WorkerPool) (closed : List ℕ)
    → Fate route fd
        (copied addr socklen)
        pool
        closed
        (accept_cb alloc sent route fd addr socklen pool closed)
unfolding accept_cb worker_pool_next
accept_cb-Fate alloc sent route fd addr socklen pool closed =
    elim (Bool-cases (is_null addr || socklen == 0 || ltb sizeof_storage socklen)) [
      | inl refused ↦ rw refused (inr (inl (refl, refl)))
      | inr taken ↦ elim (Bool-cases (length pool.workers == 0)) [
        | inl empty ↦ rw (taken, empty) (inr (inl (refl, refl)))
        | inr nonempty ↦
            let pos : 0 < length pool.workers = ground arith in
            let i = pool.next % length pool.workers in
            let (w, at) = get_elem?-some pool.workers i (mod-lt pool.next pos) in
            rw (taken, nonempty, at)
              (dispatched-Fate route fd (copied addr socklen) pool closed alloc i w socklen
                ((pool.next + 1) % 2 ^ 64) _ refl at
                (enqueue_client_cases alloc sent w route fd addr socklen closed))
      ]
    ]
