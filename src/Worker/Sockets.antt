-- ===== src/Worker/Sockets.antt =====
-- Who owns a client's socket around src/worker.c, and the loop of drain_notify_fd.
use tinyproxy.Base.{
  ℕ, zero, suc, ◌-◌, ◌≤◌, ◌<◌, ◌≡◌, refl, ap, sym, ◌∙◌, Bool, true, false, ◌⊎◌, inl, inr, List, [],
  ◌∷◌, ◌++◌, append_assoc, append-nil, Option, none, some, Option-cases, if◌then◌else◌, drop, ltb,
  ◌==◌, arith, Bool-cases, Bytes, einval, enomem, ecanceled,
}
use tinyproxy.Worker.{
  WorkerMsg, stream_client, datagram_packet, Worker, Sent, byte_sent, would_block, send_error,
  notify_worker, drain_notify_fd, worker_take_pending, free_worker_msg, free_worker_msgs,
  set_stopping, worker_stop, worker_join, worker_free, Enqueued, append_msg, worker_enqueue_msg,
  sizeof_storage, copied, worker_enqueue_stream_client,
}

-- The client socket that a message owns.
abbrev pub owned : WorkerMsg → List ℕ
owned (stream_client m) = elim m.fd [ none ↦ [] | some fd ↦ fd ∷ [] ]
owned (datagram_packet m) = []

abbrev pub all_owned : List WorkerMsg → List ℕ
all_owned [] = []
all_owned (m ∷ ms) = owned m ++ all_owned ms

free_worker_msg-owned :
    (closed : List ℕ) (m : WorkerMsg) → free_worker_msg closed m ≡ closed ++ owned m
unfolding free_worker_msg
free_worker_msg-owned closed (stream_client m) = elim (Option-cases m.fd) [
  | inl e ↦ rw e (sym (append-nil closed))
  | inr (fd, e) ↦ rw e refl
]
free_worker_msg-owned closed (datagram_packet m) = sym (append-nil closed)

free_worker_msgs-owned :
    (closed : List ℕ) (ms : List WorkerMsg) → free_worker_msgs closed ms ≡ closed ++ all_owned ms
unfolding free_worker_msgs
free_worker_msgs-owned closed [] = sym (append-nil closed)
free_worker_msgs-owned closed (m ∷ ms) =
    free_worker_msgs-owned (free_worker_msg closed m) ms
    ∙ ap (λ z. z ++ all_owned ms) (free_worker_msg-owned closed m)
    ∙ append_assoc closed (owned m) (all_owned ms)

pub worker_stop-pending : (sent : Sent) (w : Worker) → (worker_stop sent w).pending ≡ w.pending
unfolding worker_stop set_stopping notify_worker
worker_stop-pending byte_sent w = ground arith
worker_stop-pending would_block w = ground arith
worker_stop-pending (send_error e) w = ground arith

-- The messages that are pending when the thread, if there is one, has ended.
abbrev messages_left : (ℕ → ℕ) → Bool → ℕ → List WorkerMsg → List WorkerMsg
messages_left finished started id pending = if started then drop (finished id) pending else pending

abbrev pub left_by : (ℕ → ℕ) → Worker → List WorkerMsg
left_by finished w = messages_left finished w.started w.id w.pending

worker_stop-kept :
    (sent : Sent) (w : Worker)
    → ((worker_stop sent w).id ≡ w.id) × ((worker_stop sent w).started ≡ w.started)
unfolding worker_stop set_stopping notify_worker
worker_stop-kept byte_sent w = (ground arith, ground arith)
worker_stop-kept would_block w = (ground arith, ground arith)
worker_stop-kept (send_error e) w = (ground arith, ground arith)

pub join-left :
    (finished : ℕ → ℕ) (w : Worker)
    → ((worker_join finished w).pending ≡ left_by finished w)
      × ((worker_join finished w).started ≡ false)
unfolding worker_join
join-left finished w = by_started w.started refl
  where
    by_started :
        (b : Bool)
        → w.started ≡ b
        → ((worker_join finished w).pending ≡ left_by finished w)
          × ((worker_join finished w).started ≡ false)
    by_started true running = rw running (refl, refl)
    by_started false still = rw still (refl, refl)

pub stop-left :
    (finished : ℕ → ℕ) (sent : Sent) (w : Worker)
    → left_by finished (worker_stop sent w) ≡ left_by finished w
stop-left finished sent w =
    let (id, started) = worker_stop-kept sent w in
    ap (λ b. messages_left finished b (worker_stop sent w).id (worker_stop sent w).pending) started
    ∙ ap (λ i. messages_left finished w.started i (worker_stop sent w).pending) id
    ∙ ap (λ ms. messages_left finished w.started w.id ms) (worker_stop-pending sent w)

-- worker_free closes the socket of each client that is pending when the thread has ended, in order,
-- and no other socket of a client; it leaves no message, and a worker that is not started.
pub worker_free-owned :
    (finished : ℕ → ℕ) (sent : Sent) (w : Worker) (closed : List ℕ)
    → ((worker_free finished sent w closed).1 ≡ closed ++ all_owned (left_by finished w))
      × ((worker_free finished sent w closed).0.pending ≡ [])
      × ((worker_free finished sent w closed).0.started ≡ false)
unfolding worker_free worker_take_pending
worker_free-owned finished sent w closed = (
  free_worker_msgs-owned closed (worker_join finished (worker_stop sent w)).pending
      ∙ ap (λ z. closed ++ all_owned z)
          ((join-left finished (worker_stop sent w)).0 ∙ stop-left finished sent w),
  refl,
  (join-left finished (worker_stop sent w)).1,
)

-- The three ways in which a client's socket leaves worker_enqueue_stream_client: the worker owns it,
-- it was closed, or the caller still owns it.
abbrev pub Handed : Worker → ℕ → Bytes → ℕ → List ℕ → Enqueued → Type 0
Handed w route peer fd closed r =
    (r.rc ≡ none)
    × (w.stopping ≡ false)
    × (r.worker.pending
        ≡ w.pending
          ++ stream_client (record { route = route; fd = some fd; peer_addr = peer }) ∷ [])
    × (r.closed ≡ closed)

abbrev pub Cancelled : Worker → ℕ → List ℕ → Enqueued → Type 0
Cancelled w fd closed r =
    (r.rc ≡ some ecanceled) × (w.stopping ≡ true) × (r.worker ≡ w) × (r.closed ≡ closed ++ fd ∷ [])

abbrev pub Kept : Bool → Worker → ℕ → List ℕ → Enqueued → Type 0
Kept alloc w addr_len closed r =
    (((r.rc ≡ some einval) × (sizeof_storage < addr_len))
      ⊎ ((r.rc ≡ some enomem) × (alloc ≡ false)))
    × (r.worker ≡ w)
    × (r.closed ≡ closed)

notify_worker-pending : (sent : Sent) (w : Worker) → (notify_worker sent w).1.pending ≡ w.pending
unfolding notify_worker
notify_worker-pending byte_sent w = refl
notify_worker-pending would_block w = refl
notify_worker-pending (send_error e) w = refl

-- A valid client socket is handed to the worker that is not stopping, whatever its notification
-- gives; it is closed where the worker is stopping; and it stays with the caller if the address is
-- too long or no memory is left.
pub enqueue_client_cases :
    (alloc : Bool) (sent : Sent) (w : Worker) (route fd : ℕ) (addr : Option Bytes) (addr_len : ℕ)
    (closed : List ℕ)
    → let r = worker_enqueue_stream_client alloc sent w route (some fd) addr addr_len closed in
      Handed w route (copied addr addr_len) fd closed r
      ⊎ (Cancelled w fd closed r ⊎ Kept alloc w addr_len closed r)
unfolding worker_enqueue_stream_client worker_enqueue_msg append_msg free_worker_msg
enqueue_client_cases alloc sent w route fd addr addr_len closed =
    elim (Bool-cases (ltb sizeof_storage addr_len)) [
      | inl long ↦ rw long (inr (inr (inl (refl, ground arith), refl, refl)))
      | inr fits ↦ elim (Bool-cases alloc) [
        | inr e ↦ rw (fits, e) (inr (inr (inr (refl, refl), refl, refl)))
        | inl e ↦ elim (Bool-cases w.stopping) [
          | inl stopping ↦ rw (fits, e, stopping) (inr (inl (refl, refl, refl, refl)))
          | inr running ↦
              rw (fits, e, running) (inl (refl, refl, notify_worker-pending sent _, refl))
        ]
      ]
    ]

-- The loop of drain_notify_fd ends, with no more bytes than there were, if recv never gives more
-- bytes than are there.
pub drain_notify_fd-returns :
    (recv : ℕ → Option ℕ)
    → ((bytes n : ℕ) → recv bytes ≡ some n → n ≤ bytes)
    → (rounds bytes : ℕ) → bytes < rounds
    → (left : ℕ) × (drain_notify_fd recv rounds bytes ≡ some left) × (left ≤ bytes)
unfolding drain_notify_fd
drain_notify_fd-returns recv bound zero bytes h = absurd (omega arith)
drain_notify_fd-returns recv bound (suc rounds) bytes h = elim (Option-cases (recv bytes)) [
  | inl e ↦ rw (drain_notify_fd, e) (bytes, refl, omega arith)
  | inr (n, e) ↦
      let fewer : n ≤ bytes = bound bytes n e in
      elim (Bool-cases (n == 0)) [
        | inl eof ↦ rw (drain_notify_fd, e, eof) (bytes, refl, omega arith)
        | inr some_read ↦ elim (Bool-cases (ltb n 128)) [
          | inl short ↦ rw (drain_notify_fd, e, some_read, short) (bytes - n, refl, omega arith)
          | inr full ↦
              let large : 128 ≤ n = ground arith in
              let (left, eq, le) =
                drain_notify_fd-returns recv bound rounds (bytes - n) (omega arith) in
              rw (drain_notify_fd, e, some_read, full) (left, eq, omega arith)
        ]
      ]
]
