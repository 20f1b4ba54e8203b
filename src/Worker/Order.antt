-- ===== src/Worker/Order.antt =====
-- The queue of src/worker.c over the steps of Worker.Steps.
use mathlib.Core.Path.{subst}
use tinyproxy.Base.{
  ℕ, ◌+◌, ◌-◌, ◌≤◌, ◌<◌, ◌≡◌, refl, ap, sym, ◌∙◌, Bool, true, false, ◌⊎◌, inl, inr, List, [], ◌∷◌,
  ◌++◌, append_assoc, append-nil, if◌then◌else◌, arith,
}
use tinyproxy.Worker.{WorkerMsg, notify_worker, worker_take_pending, append_msg, set_stopping}
use tinyproxy.Worker.Steps.{
  Phase, waiting, drained, broken, processing, System, Step, enqueues, notifies, blocks, stops,
  wakes, fails, takes, processes, returns, Reaches, here, after, IsInitial,
}

abbrev pub in_hand : Phase → List WorkerMsg
in_hand (processing ms) = ms
in_hand _ = []

-- Whether the thread is sure to look at `pending` once more: it is about to, or it will be woken.
abbrev pub Attends : Phase → ℕ → ℕ → Type 0
Attends drained bytes notifying = Unit {0}
Attends broken bytes notifying = Unit {0}
Attends _ bytes notifying = 0 < bytes + notifying

pub record IsOrdered (s : System) : Type 0 where
  pub fifo : s.accepted ≡ s.processed ++ in_hand s.phase ++ s.worker.pending
  pub awake :
      s.lost ≡ false → (s.worker.pending ≡ []) ⊎ Attends s.phase s.worker.notify_bytes s.notifying

Attends-more : (p : Phase) (b n c m : ℕ) → b + n ≤ c + m → Attends p b n → Attends p c m
Attends-more waiting b n c m h w = omega arith
Attends-more drained b n c m h w = tt
Attends-more broken b n c m h w = tt
Attends-more (processing ms) b n c m h w = omega arith

Attends-positive : (p : Phase) (b n : ℕ) → 0 < b + n → Attends p b n
Attends-positive waiting b n h = h
Attends-positive drained b n h = tt
Attends-positive broken b n h = tt
Attends-positive (processing ms) b n h = h

in_hand-next : (b : Bool) → in_hand (if b then broken else waiting) ≡ []
in_hand-next true = refl
in_hand-next false = refl

Step-IsOrdered : {s t : System} → Step s t → IsOrdered s → IsOrdered t
unfolding append_msg notify_worker set_stopping worker_take_pending
Step-IsOrdered (enqueues s m running) w = record {
  fifo =
      ap (λ z. z ++ m ∷ []) w.fifo
      ∙ append_assoc (s.processed ++ in_hand s.phase) s.worker.pending (m ∷ []);
  awake = λ h. inr (Attends-positive s.phase s.worker.notify_bytes (s.notifying + 1) (omega arith));
}
Step-IsOrdered (notifies s pos) w = record {
  fifo = w.fifo;
  awake = λ h.
      inr (Attends-positive s.phase (s.worker.notify_bytes + 1) (s.notifying - 1) (omega arith));
}
Step-IsOrdered (blocks s pos bytes) w = record {
  fifo = w.fifo;
  awake = λ h. inr (Attends-positive s.phase s.worker.notify_bytes (s.notifying - 1) (omega arith));
}
Step-IsOrdered (fails s e pos) w = record { fifo = w.fifo; awake = λ h. cc }
Step-IsOrdered (stops s) w = record {
  fifo = w.fifo;
  awake = λ h. elim (w.awake h) [
    | inl e ↦ inl e
    | inr a ↦
        let more : s.notifying ≤ (if s.worker.started then s.notifying + 1 else s.notifying) =
          ground arith in
        inr (
          Attends-more s.phase s.worker.notify_bytes s.notifying s.worker.notify_bytes _
            (omega arith) a)
  ];
}
Step-IsOrdered (wakes s left at bytes fewer) w = record {
  fifo = w.fifo ∙ ap (λ p. s.processed ++ in_hand p ++ s.worker.pending) at;
  awake = λ h. inr tt;
}
Step-IsOrdered (takes s at) w = record {
  fifo =
      w.fifo
      ∙ ap (λ p. s.processed ++ in_hand p ++ s.worker.pending) at
      ∙ ap (λ z. z ++ s.worker.pending) (append-nil s.processed)
      ∙ sym (append-nil (s.processed ++ s.worker.pending));
  awake = λ h. inl refl;
}
Step-IsOrdered (processes s m ms at) w = record {
  fifo =
      w.fifo
      ∙ ap (λ p. s.processed ++ in_hand p ++ s.worker.pending) at
      ∙ ap (λ z. z ++ s.worker.pending) (sym (append_assoc s.processed (m ∷ []) ms));
  awake = λ h. elim (w.awake h) [
    | inl e ↦ inl e
    | inr a ↦ inr (subst (λ p. Attends p s.worker.notify_bytes s.notifying) at a)
  ];
}
Step-IsOrdered (returns s at) w = record {
  fifo =
      w.fifo
      ∙ ap (λ p. s.processed ++ in_hand p ++ s.worker.pending) at
      ∙ ap (λ z. s.processed ++ z ++ s.worker.pending) (sym (in_hand-next s.worker.stopping));
  awake = λ h. elim (w.awake h) [
    | inl e ↦ inl e
    | inr a ↦ inr (
        Attends-positive (if s.worker.stopping then broken else waiting) s.worker.notify_bytes
          s.notifying (subst (λ p. Attends p s.worker.notify_bytes s.notifying) at a))
  ];
}

initial-IsOrdered : (s : System) → IsInitial s → IsOrdered s
initial-IsOrdered s (empty, idle, none_in, none_out, none_lost) = record {
  fifo = cc_fifo;
  awake = λ h. inl empty;
}
  where
    cc_fifo : s.accepted ≡ s.processed ++ in_hand s.phase ++ s.worker.pending
    cc_fifo = rw (none_in, none_out, idle, empty) refl

-- In every interleaving of the producers, of worker_stop and of the worker's thread, the messages
-- that were appended are those processed, then those the thread has in hand, then the pending
-- ones, in the order in which they were appended; and where messages are pending and no
-- send of a notification has failed, other than by blocking, since a byte was last sent and since the
-- thread last took messages, the thread is about to take them, or it has left its loop, or a byte is there or on its way to wake it.
pub reached-IsOrdered : (s t : System) → IsInitial s → Reaches s t → IsOrdered t
reached-IsOrdered s t init (here _) = initial-IsOrdered s init
reached-IsOrdered s t init (after _ u _ path step) =
    Step-IsOrdered step (reached-IsOrdered s u init path)

-- When the thread waits, no byte is left to wake it, no thread is about to send one, and no send of
-- a notification has failed, other than by blocking, since a byte was last sent and since the thread
-- last took messages, every message that was ever appended has been processed, in that order.
pub waiting-processed :
    (s t : System)
    → IsInitial s
    → Reaches s t
    → t.phase ≡ waiting
    → t.worker.notify_bytes ≡ 0
    → t.notifying ≡ 0
    → t.lost ≡ false
    → t.processed ≡ t.accepted
waiting-processed s t init path at no_bytes none_notifying none_lost =
    let w = reached-IsOrdered s t init path in
    let all_taken : t.worker.pending ≡ [] = elim (w.awake none_lost) [
      | inl e ↦ e
      | inr a ↦
          let woken : 0 < t.worker.notify_bytes + t.notifying =
            subst (λ p. Attends p t.worker.notify_bytes t.notifying) at a in
          absurd (omega arith)
    ] in
    sym (
      w.fifo
      ∙ ap (λ p. t.processed ++ in_hand p ++ t.worker.pending) at
      ∙ ap (λ z. t.processed ++ [] ++ z) all_taken
      ∙ append-nil (t.processed ++ [])
      ∙ append-nil t.processed)
