-- ===== src/Worker/Steps.antt =====
-- The threads of src/worker.c as steps: producers that enqueue and notify, worker_stop, and the
-- worker's thread in worker_notify_cb. A step is what happens under one lock, or one system call.
use tinyproxy.Base.{
  ℕ, ◌+◌, ◌-◌, ◌≤◌, ◌<◌, ◌≡◌, Bool, true, false, List, [], ◌∷◌, ◌++◌, if◌then◌else◌, Errno,
}
use tinyproxy.Worker.{
  WorkerMsg, Worker, Sent, byte_sent, would_block, send_error, notify_worker, worker_take_pending,
  append_msg, set_stopping,
}

-- Where the worker's thread stands: in the event loop, in worker_notify_cb behind
-- drain_notify_fd, in worker_process_pending with the messages it has yet to process, or behind
-- event_base_loopbreak.
pub data Phase : Type 0 where
  waiting drained broken : Phase
  processing : List WorkerMsg → Phase

-- `notifying` counts the threads between the unlock and notify_worker. `accepted` lists the messages
-- that were appended, and `processed` those that worker_process_msg got. `lost` tells whether a send
-- of notify_worker has failed, other than by blocking, since one last left a byte in the socket and
-- since the thread last took the pending messages.
pub record System : Type 0 where
  pub worker : Worker
  pub phase : Phase
  pub notifying : ℕ
  pub accepted : List WorkerMsg
  pub processed : List WorkerMsg
  pub lost : Bool

abbrev pub enqueue : WorkerMsg → System → System
enqueue m s = record s {
  worker = append_msg m s.worker;
  notifying = s.notifying + 1;
  accepted = s.accepted ++ m ∷ [];
}

abbrev pub notify : Sent → System → System
notify sent s = record s {
  worker = (notify_worker sent s.worker).1;
  notifying = s.notifying - 1;
  lost = false;
}

-- worker_enqueue_msg and worker_stop go on after an error of notify_worker.
abbrev pub fail_notify : Errno → System → System
fail_notify e s = record (notify (send_error e) s) { lost = true }

abbrev pub stop : System → System
stop s = record s {
  worker = set_stopping s.worker;
  notifying = if s.worker.started then s.notifying + 1 else s.notifying;
}

-- drain_notify_fd leaves `left` bytes.
abbrev pub drain : ℕ → System → System
drain left s = record s { worker = record s.worker { notify_bytes = left }; phase = drained }

abbrev pub take_pending : System → System
take_pending s = record s {
  worker = (worker_take_pending s.worker).1;
  phase = processing (worker_take_pending s.worker).0;
  lost = false;
}

abbrev pub process : WorkerMsg → List WorkerMsg → System → System
process m ms s = record s { phase = processing ms; processed = s.processed ++ m ∷ [] }

abbrev pub return_to_loop : System → System
return_to_loop s = record s { phase = if s.worker.stopping then broken else waiting }

-- A socket that would block has bytes to be read.
pub data Step : System → System → Type 0 where
  enqueues : (s : System) (m : WorkerMsg) → s.worker.stopping ≡ false → Step s (enqueue m s)
  notifies : (s : System) → 0 < s.notifying → Step s (notify byte_sent s)
  blocks :
      (s : System) → 0 < s.notifying → 0 < s.worker.notify_bytes → Step s (notify would_block s)
  fails : (s : System) (e : Errno) → 0 < s.notifying → Step s (fail_notify e s)
  stops : (s : System) → Step s (stop s)
  wakes :
      (s : System) (left : ℕ)
      → s.phase ≡ waiting
      → 0 < s.worker.notify_bytes
      → left ≤ s.worker.notify_bytes
      → Step s (drain left s)
  takes : (s : System) → s.phase ≡ drained → Step s (take_pending s)
  processes :
      (s : System) (m : WorkerMsg) (ms : List WorkerMsg)
      → s.phase ≡ processing (m ∷ ms)
      → Step s (process m ms s)
  returns : (s : System) → s.phase ≡ processing [] → Step s (return_to_loop s)

pub data Reaches : System → System → Type 0 where
  here : (s : System) → Reaches s s
  after : (s t u : System) → Reaches s t → Step t u → Reaches s u

-- After worker_init and worker_start.
abbrev pub IsInitial : System → Type 0
IsInitial s =
    (s.worker.pending ≡ [])
    × (s.phase ≡ waiting)
    × (s.accepted ≡ [])
    × (s.processed ≡ [])
    × (s.lost ≡ false)
