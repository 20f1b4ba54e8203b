-- ===== src/Pool/Lifecycle.antt =====
-- What worker_pool_init and worker_pool_start of src/worker_pool.c leave behind.
use tinyproxy.Base.{
  ℕ, zero, suc, ◌+◌, ◌≤◌, ◌<◌, ◌≡◌, ◌≢◌, refl, ap, ◌∙◌, Bool, true, false, ◌⊎◌, inl, inr, List, [],
  ◌∷◌, ◌++◌, Option, none, some, ◌==◌, arith, Bool-cases, Option-cases, length, length-append,
  append-nil, All, All-append, Errno, einval, enomem, ok, err,
}
use tinyproxy.Worker.{Worker, Sent, worker_stop}
use tinyproxy.Worker.Sockets.{join-left}
use tinyproxy.Pool.{
  Resources, fresh, worker_init, worker_start, WorkerPool, no_workers, init_from, worker_pool_init,
  stop_all, go_on, start_from, worker_pool_start,
}

abbrev pub workers_from : ℕ → ℕ → List Worker
workers_from i zero = []
workers_from i (suc left) = fresh (i + 1) ∷ workers_from (i + 1) left

worker_init-cases :
    (res : Resources) (id : ℕ)
    → (worker_init res id ≡ ok (fresh id)) ⊎ ((e : Errno) × (worker_init res id ≡ err e))
unfolding worker_init
worker_init-cases res id = elim (Bool-cases res.base_new) [
  | inr b ↦ inr (enomem, rw (worker_init, b) refl)
  | inl b ↦ elim (Option-cases res.mutex_init) [
    | inr (e, m) ↦ inr (e, rw (worker_init, b, m) refl)
    | inl m ↦ elim (Option-cases res.socketpair) [
      | inr (e, p) ↦ inr (e, rw (worker_init, b, m, p) refl)
      | inl p ↦ elim (Bool-cases res.event_new) [
        | inr n ↦ inr (enomem, rw (worker_init, b, m, p, n) refl)
        | inl n ↦ elim (Bool-cases res.event_add) [
          | inr a ↦ inr (einval, rw (worker_init, b, m, p, n, a) refl)
          | inl a ↦ inl (rw (worker_init, b, m, p, n, a) refl)
        ]
      ]
    ]
  ]
]

-- The worker with some index between `i` and `i + left` could not be made.
abbrev pub Lacks : (ℕ → Resources) → ℕ → ℕ → Errno → Type 0
Lacks res i top e = (j : ℕ) × (i ≤ j) × (j < top) × (worker_init (res j) (j + 1) ≡ err e)

Lacks-earlier :
    (res : ℕ → Resources) (i left : ℕ) (e : Errno)
    → Lacks res (i + 1) (i + 1 + left) e
    → Lacks res i (i + suc left) e
Lacks-earlier res i left e (j, low, high, failed) = (j, omega arith, omega arith, failed)

-- The workers that are made are numbered from 1.
init_from-cases :
    (res : ℕ → Resources) (i left : ℕ)
    → (init_from res i left ≡ ok (workers_from i left))
      ⊎ ((e : Errno) × (init_from res i left ≡ err e) × Lacks res i (i + left) e)
unfolding init_from
init_from-cases res i zero = inl refl
init_from-cases res i (suc left) = elim (worker_init-cases (res i) (i + 1)) [
  | inr (e, failed) ↦ inr (e, rw (init_from, failed) refl, (i, omega arith, omega arith, failed))
  | inl made ↦ elim (init_from-cases res (i + 1) left) [
    | inr (e, failed, lacks) ↦
        inr (e, rw (init_from, made, failed) refl, Lacks-earlier res i left e lacks)
    | inl rest ↦ inl (rw (init_from, made, rest) refl)
  ]
]

abbrev pub IsStarted : Worker → Type 0
IsStarted w = w.started ≡ true

abbrev pub IsStill : Worker → Type 0
IsStill w = w.started ≡ false

stop_all-IsStill :
    (finished : ℕ → ℕ) (sent : Sent) (ws : List Worker) → All IsStill (stop_all finished sent ws)
unfolding stop_all
stop_all-IsStill finished sent [] = tt
stop_all-IsStill finished sent (w ∷ ws) =
    ((join-left finished (worker_stop sent w)).1, stop_all-IsStill finished sent ws)

worker_start-cases :
    (create : Option Errno) (w : Worker)
    → IsStill w
    → ((worker_start create w).0 ≡ none) × IsStarted (worker_start create w).1
      ⊎ ((e : Errno) × (create ≡ some e) × ((worker_start create w).0 ≡ some e))
unfolding worker_start
worker_start-cases none w still = rw still (inl (refl, refl))
worker_start-cases (some e) w still = rw still (inr (e, refl, refl))

abbrev pub AllOrNone : List Worker → Option Errno × List Worker → Type 0
AllOrNone ws (rc, now) =
    (length now ≡ length ws) × (((rc ≡ none) × All IsStarted now) ⊎ ((rc ≢ none) × All IsStill now))

AllOrNone-go_on :
    (ws : List Worker) (c : Option Errno) (rest : Option Errno × List Worker) (failed : List Worker)
    → (c ≡ none) × AllOrNone ws rest
      ⊎ ((e : Errno) × (c ≡ some e) × (length failed ≡ length ws) × All IsStill failed)
    → AllOrNone ws (go_on c rest failed)
AllOrNone-go_on ws c rest failed (inl (h, w)) = rw h w
AllOrNone-go_on ws c rest failed (inr (e, h, same, still)) = rw h (same, inr (λ k. cc, still))

stop_all-length :
    (finished : ℕ → ℕ) (sent : Sent) (ws : List Worker)
    → length (stop_all finished sent ws) ≡ length ws
unfolding stop_all
stop_all-length finished sent [] = refl
stop_all-length finished sent (w ∷ ws) = ap suc (stop_all-length finished sent ws)

start_from-AllOrNone :
    (create : ℕ → Option Errno) (finished : ℕ → ℕ) (sent : Sent) (done ws : List Worker)
    → All IsStarted done
    → All IsStill ws
    → AllOrNone (done ++ ws) (start_from create finished sent done ws)
unfolding start_from
start_from-AllOrNone create finished sent done [] started still =
    rw (append-nil done) (refl, inl (refl, started))
start_from-AllOrNone create finished sent done (w ∷ ws) started still =
    let next = (worker_start (create w.id) w).1 in
    AllOrNone-go_on (done ++ w ∷ ws) (worker_start (create w.id) w).0 _ _
      (elim (worker_start-cases (create w.id) w still.0) [
        | inl (rc, now) ↦
            let rest =
              start_from-AllOrNone create finished sent (done ++ next ∷ []) ws
                (All-append IsStarted done (next ∷ []) started (now, tt)) still.1 in
            let same : length (done ++ next ∷ [] ++ ws) ≡ length (done ++ w ∷ ws) = omega (
              arith,
              length-append (done ++ next ∷ []) ws,
              length-append done (next ∷ []),
              length-append done (w ∷ ws),
            ) in
            inl (rc, (rest.0 ∙ same, rest.1))
        | inr (e, _, rc) ↦ inr (
          e,
          rc,
          omega (
            arith,
            stop_all-length finished sent done,
            length-append (stop_all finished sent done) (w ∷ ws),
            length-append done (w ∷ ws),
          ),
          All-append IsStill (stop_all finished sent done) (w ∷ ws)
              (stop_all-IsStill finished sent done) still,
        )
      ])

AllOrNone-started :
    (create : ℕ → Option Errno) (finished : ℕ → ℕ) (sent : Sent) (pool : WorkerPool)
    (ws : List Worker)
    → pool.workers ≡ ws
    → All IsStill ws
    → 0 < length ws
    → AllOrNone ws (
      (worker_pool_start create finished sent pool).0,
      (worker_pool_start create finished sent pool).1.workers,
    )
unfolding worker_pool_start
AllOrNone-started create finished sent pool [] e still pos = absurd (omega arith)
AllOrNone-started create finished sent pool (w ∷ ws) e still pos =
    rw e (start_from-AllOrNone create finished sent [] (w ∷ ws) tt still)

-- From workers that are not started, worker_pool_start starts every worker and returns 0, or it
-- returns an error and no worker is started; their number stays.
pub worker_pool_start-AllOrNone :
    (create : ℕ → Option Errno) (finished : ℕ → ℕ) (sent : Sent) (pool : WorkerPool)
    → All IsStill pool.workers
    → 0 < length pool.workers
    → AllOrNone pool.workers (
      (worker_pool_start create finished sent pool).0,
      (worker_pool_start create finished sent pool).1.workers,
    )
unfolding worker_pool_start
worker_pool_start-AllOrNone create finished sent pool still pos =
    AllOrNone-started create finished sent pool pool.workers refl still pos

-- worker_pool_init returns 0 and the pool has `count` fresh workers, numbered from 1, with the turn
-- at the first; or `count` is 0, and the pool is left as it was; or the memory for the workers is
-- missing or worker_init fails with the same error for one of them, and the pool has no workers.
pub worker_pool_init-cases :
    (alloc : Bool) (res : ℕ → Resources) (count : ℕ) (pool : WorkerPool)
    → ((0 < count)
        × (worker_pool_init alloc res count pool
            ≡ (none, record { workers = workers_from 0 count; next = 0 })))
      ⊎ ((e : Errno) × (((count ≡ 0) × (worker_pool_init alloc res count pool ≡ (some e, pool)))
            ⊎ (((alloc ≡ false) ⊎ Lacks res 0 count e)
                × (worker_pool_init alloc res count pool ≡ (some e, no_workers)))))
unfolding worker_pool_init
worker_pool_init-cases alloc res count pool = elim (Bool-cases (count == 0)) [
  | inl empty ↦ inr (einval, inl (ground arith, rw empty refl))
  | inr some_count ↦
      let pos : 0 < count = ground arith in
      elim (Bool-cases alloc) [
        | inr no_memory ↦ inr (enomem, inr (inl no_memory, rw (some_count, no_memory) refl))
        | inl memory ↦ elim (init_from-cases res 0 count) [
          | inl made ↦ inl (pos, rw (some_count, memory, made) refl)
          | inr (e, failed, (j, low, high, lacks)) ↦
              inr (e, inr (inr (j, low, omega arith, lacks), rw (some_count, memory, failed) refl))
        ]
      ]
]
