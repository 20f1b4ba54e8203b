-- ===== src/Worker.antt =====
-- src/worker.c and src/worker.h: the queue of a worker.
pub mod Steps
pub mod Order
pub mod Sockets
pub mod Tests
use tinyproxy.Base.{
  ℕ, zero, suc, ◌+◌, ◌-◌, Bool, true, false, not, ◌&&◌, ◌||◌, List, [], ◌∷◌, ◌++◌, Option, none,
  some, ltb, ◌==◌, if◌then◌else◌, Bytes, length, take, drop, Errno, einval, enomem, ecanceled,
}

-- evutil_socket_t, with `none` for EVUTIL_INVALID_SOCKET.
abbrev pub Socket : Type 0
Socket = Option ℕ

abbrev pub socket_is_valid : Socket → Bool
socket_is_valid none = false
socket_is_valid (some fd) = true

-- A route and a datagram context stand by number for the pointers to them. `peer_addr` holds its
-- first `peer_addr_len` bytes.
pub record WorkerStreamClientMsg : Type 0 where
  pub route : ℕ
  pub fd : Socket
  pub peer_addr : Bytes

pub record WorkerDatagramPacketMsg : Type 0 where
  pub route : ℕ
  pub ctx : ℕ
  pub peer_addr : Bytes
  pub payload : Bytes

pub data WorkerMsg : Type 0 where
  stream_client : WorkerStreamClientMsg → WorkerMsg
  datagram_packet : WorkerDatagramPacketMsg → WorkerMsg

-- `pending` is the linked list from `pending_head` to `pending_tail`. `notify_bytes` counts the
-- bytes in the socket pair that were sent to notify_send_fd and not yet read.
pub record Worker : Type 0 where
  pub id : ℕ
  pub started : Bool
  pub stopping : Bool
  pub pending : List WorkerMsg
  pub notify_bytes : ℕ

-- What `send` on the notify socket does: one byte is written, the socket is full (EAGAIN), or
-- another error.
pub data Sent : Type 0 where
  byte_sent would_block : Sent
  send_error : Errno → Sent

-- A return code, `none` for 0, and the new state.
unfoldable pub notify_worker : Sent → Worker → Option Errno × Worker
notify_worker byte_sent w = (none, record w { notify_bytes = w.notify_bytes + 1 })
notify_worker would_block w = (none, w)
notify_worker (send_error e) w = (some e, w)

-- The bytes left after the loop; `recv` gives the number of bytes read where so many are there,
-- or `none` for an error. `none` is a loop that is out of rounds.
unfoldable pub drain_notify_fd : (ℕ → Option ℕ) → ℕ → ℕ → Option ℕ
drain_notify_fd recv zero bytes = none
drain_notify_fd recv (suc rounds) bytes = elim (recv bytes) [
  | none ↦ some bytes
  | some n ↦
      let rest = drain_notify_fd recv rounds (bytes - n) in
      if n == 0 then some bytes else if ltb n 128 then some (bytes - n) else rest
]

unfoldable pub worker_take_pending : Worker → List WorkerMsg × Worker
worker_take_pending w = (w.pending, record w { pending = [] })

-- The sockets that free_worker_msg closes, behind those closed before.
unfoldable pub free_worker_msg : List ℕ → WorkerMsg → List ℕ
free_worker_msg closed (stream_client m) = elim m.fd [ none ↦ closed | some fd ↦ closed ++ fd ∷ [] ]
free_worker_msg closed (datagram_packet m) = closed

unfoldable pub free_worker_msgs : List ℕ → List WorkerMsg → List ℕ
unfolding free_worker_msg
free_worker_msgs closed [] = closed
free_worker_msgs closed (m ∷ ms) = free_worker_msgs (free_worker_msg closed m) ms

-- worker_stop, up to the unlock.
unfoldable pub set_stopping : Worker → Worker
set_stopping w = record w { stopping = true }

unfoldable pub worker_stop : Sent → Worker → Worker
unfolding set_stopping notify_worker
worker_stop sent w =
    let stopped = set_stopping w in
    if stopped.started then (notify_worker sent stopped).1 else stopped

-- The thread has ended when this returns. Woken by worker_stop, it processes messages before it
-- ends: `finished` gives, for a worker's number, how many of those that are pending.
unfoldable pub worker_join : (ℕ → ℕ) → Worker → Worker
worker_join finished w =
    if w.started then record w { started = false; pending = drop (finished w.id) w.pending } else w

-- The worker that is left, and the sockets of clients that were closed. The worker's own sockets,
-- event and base are left out.
unfoldable pub worker_free : (ℕ → ℕ) → Sent → Worker → List ℕ → Worker × List ℕ
unfolding worker_stop worker_join worker_take_pending free_worker_msgs
worker_free finished sent w closed =
    let (msgs, rest) = worker_take_pending (worker_join finished (worker_stop sent w)) in
    (rest, free_worker_msgs closed msgs)

-- The return code, the worker, and the sockets that were closed.
pub record Enqueued : Type 0 where
  pub rc : Option Errno
  pub worker : Worker
  pub closed : List ℕ

-- What worker_enqueue_msg does under the lock of a worker that is not stopping.
unfoldable pub append_msg : WorkerMsg → Worker → Worker
append_msg m w = record w { pending = w.pending ++ m ∷ [] }

-- An error of notify_worker is only logged.
unfoldable pub worker_enqueue_msg : Sent → Worker → WorkerMsg → List ℕ → Enqueued
unfolding free_worker_msg notify_worker append_msg
worker_enqueue_msg sent w m closed =
    if w.stopping
    then record { rc = some ecanceled; worker = w; closed = free_worker_msg closed m }
    else record { rc = none; worker = (notify_worker sent (append_msg m w)).1; closed = closed }

abbrev pub refuse : Errno → Worker → List ℕ → Enqueued
refuse e w closed = record { rc = some e; worker = w; closed = closed }

-- sizeof(struct sockaddr_storage)
abbrev pub sizeof_storage : ℕ
sizeof_storage = 128

abbrev pub copied : Option Bytes → ℕ → Bytes
copied none n = []
copied (some addr) n = take n addr

-- `alloc` tells whether calloc gives memory.
unfoldable pub worker_enqueue_stream_client :
    Bool → Sent → Worker → ℕ → Socket → Option Bytes → ℕ → List ℕ → Enqueued
unfolding worker_enqueue_msg
worker_enqueue_stream_client alloc sent w route fd addr addr_len closed =
    if not (socket_is_valid fd)
    then refuse einval w closed
    else if ltb sizeof_storage addr_len
    then refuse einval w closed
    else if not alloc
    then refuse enomem w closed
    else worker_enqueue_msg sent w
        (stream_client (record { route = route; fd = fd; peer_addr = copied addr addr_len })) closed

abbrev pub is_null : Option Bytes → Bool
is_null none = true
is_null (some a) = false

-- `alloc` and `alloc_data` tell whether calloc and malloc give memory.
unfoldable pub worker_enqueue_datagram_packet :
    Bool
    → Bool
    → Sent
    → Worker
    → ℕ
    → ℕ
    → Socket
    → Option Bytes
    → ℕ
    → Option Bytes
    → ℕ
    → List ℕ
    → Enqueued
unfolding worker_enqueue_msg
worker_enqueue_datagram_packet alloc alloc_data sent w route ctx listen_fd peer peer_len packet
      data_len closed =
    if not (socket_is_valid listen_fd)
    then refuse einval w closed
    else if is_null peer || peer_len == 0 || ltb sizeof_storage peer_len
    then refuse einval w closed
    else if is_null packet && ltb 0 data_len
    then refuse einval w closed
    else if not alloc || ltb 0 data_len && not alloc_data
    then refuse enomem w closed
    else worker_enqueue_msg sent w
        (datagram_packet (record {
          route = route;
          ctx = ctx;
          peer_addr = copied peer peer_len;
          payload = copied packet data_len;
        }))
        closed
