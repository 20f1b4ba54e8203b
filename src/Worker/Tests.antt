-- ===== src/Worker/Tests.antt =====
-- Runs of a worker's queue, and its theorems at concrete inputs.
use tinyproxy.Base.{ℕ, ◌≡◌, refl, true, false, [], ◌∷◌, Option, some, arith, min, codes}
use tinyproxy.Worker.{
  WorkerMsg, stream_client, Worker, byte_sent, notify_worker, append_msg, worker_take_pending,
}
use tinyproxy.Worker.Steps.{
  System, waiting, enqueue, notify, drain, take_pending, process, return_to_loop, enqueues,
  notifies, wakes, takes, processes, returns, Reaches, here, after,
}
use tinyproxy.Worker.Order.{IsOrdered, reached-IsOrdered, waiting-processed}

abbrev idle : Worker
idle = record { id = 1; started = true; stopping = false; pending = []; notify_bytes = 0 }

abbrev client : WorkerMsg
client = stream_client (record { route = 0; fd = some 9; peer_addr = codes "peer" })

abbrev begin : System
begin = record {
  worker = idle;
  phase = waiting;
  notifying = 0;
  accepted = [];
  processed = [];
  lost = false;
}

-- A client is enqueued and notified, and the worker wakes, takes and processes it.
abbrev woken : System
woken = drain 0 (notify byte_sent (enqueue client begin))

abbrev served : System
served = return_to_loop (process client [] (take_pending woken))

serves : Reaches begin served
unfolding append_msg notify_worker worker_take_pending
serves =
    after _ _ _
      (after _ _ _
        (after _ _ _
          (after _ _ _
            (after _ _ _ (after _ _ _ (here begin) (enqueues _ client refl))
              (notifies _ (omega arith)))
            (wakes _ 0 refl (omega arith) (omega arith)))
          (takes _ refl))
        (processes _ client [] refl))
      (returns _ refl)

reached-IsOrdered_example : IsOrdered served
reached-IsOrdered_example = reached-IsOrdered begin served (refl, refl, refl, refl, refl) serves

waiting-processed_example : served.processed ≡ client ∷ []
unfolding append_msg notify_worker worker_take_pending
waiting-processed_example =
    waiting-processed begin served (refl, refl, refl, refl, refl) serves refl refl refl refl

abbrev busy : Worker
busy = record idle { pending = client ∷ [] }

abbrev recv : ℕ → Option ℕ
recv bytes = some (min bytes 128)
