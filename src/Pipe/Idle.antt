-- ===== src/Pipe/Idle.antt =====
-- The idle timer of src/stream_conn.c.
use tinyproxy.Base.{
  ℕ, zero, suc, ◌+◌, ◌%◌, ◌^◌, ◌<◌, ◌≡◌, ◌≢◌, refl, Bool, true, false, not, Option, none, some,
  ◌==◌, if◌then◌else◌, Bool-cases, inl, inr, ◌⊎◌, arith,
}
use tinyproxy.Pipe.{Conn, touched}

abbrev pub has_timer : Option Bool → Bool
has_timer none = false
has_timer (some pending) = true

module _ {B : Type 0} where
  unfoldable pub schedule_conn_idle_timer : Conn B → Conn B
  schedule_conn_idle_timer conn =
      if not (has_timer conn.idle_ev)
      then conn
      else if conn.idle_timeout_sec == 0
      then conn
      else record conn { idle_ev = some true }

  -- `alloc` tells whether evtimer_new gives a timer; the result is false for the return value -1.
  unfoldable pub start_conn_idle_timer : Bool → Conn B → Bool × Conn B
  unfolding schedule_conn_idle_timer
  start_conn_idle_timer alloc conn =
      let counted = record conn { activity_seq = 1; idle_check_seq = 1 } in
      if conn.idle_timeout_sec == 0
      then (true, conn)
      else if not alloc
      then (false, record counted { idle_ev = none })
      else (true, schedule_conn_idle_timer (record counted { idle_ev = some false }))

  -- The timer fires, and is no longer pending. `none` is a connection that free_conn has freed.
  unfoldable pub conn_idle_timeout_cb : Conn B → Option (Conn B)
  unfolding schedule_conn_idle_timer
  conn_idle_timeout_cb conn =
      let fired = record conn { idle_ev = some false } in
      if not (conn.activity_seq == conn.idle_check_seq)
      then some (schedule_conn_idle_timer (record fired { idle_check_seq = conn.activity_seq }))
      else none

  unfoldable pub conn_touch : Conn B → Conn B
  conn_touch conn = record conn { activity_seq = touched conn.activity_seq }

  abbrev pub touches : ℕ → Conn B → Conn B
  touches zero conn = conn
  touches (suc k) conn = conn_touch (touches k conn)

  touches-seq :
      (k : ℕ) (conn : Conn B)
      → conn.activity_seq < 2 ^ 64
      → (touches k conn).activity_seq ≡ (conn.activity_seq + k) % 2 ^ 64
  unfolding conn_touch
  touches-seq zero conn small = omega arith
  touches-seq (suc k) conn small = let e = touches-seq k conn small in omega (arith, e)

  touches-fields :
      (k : ℕ) (conn : Conn B)
      → ((touches k conn).idle_check_seq ≡ conn.idle_check_seq)
        × ((touches k conn).idle_timeout_sec ≡ conn.idle_timeout_sec)
  unfolding conn_touch
  touches-fields zero conn = (refl, refl)
  touches-fields (suc k) conn = touches-fields k conn

  -- What the timer leaves of a connection: its count of activity checked, and the timer pending.
  abbrev pub Watched : Conn B → Type 0
  Watched conn =
      (conn.activity_seq < 2 ^ 64)
      × (conn.idle_check_seq ≡ conn.activity_seq)
      × (0 < conn.idle_timeout_sec)
      × (conn.idle_ev ≡ some true)

  -- The timer that is started for a route with an idle timeout watches its connection, or there was
  -- no memory for it.
  pub start_conn_idle_timer-Watched :
      (alloc : Bool) (conn : Conn B)
      → 0 < conn.idle_timeout_sec
      → ((alloc ≡ true) × Watched (start_conn_idle_timer alloc conn).1)
        ⊎ ((alloc ≡ false) × ((start_conn_idle_timer alloc conn).0 ≡ false))
  unfolding start_conn_idle_timer schedule_conn_idle_timer
  start_conn_idle_timer-Watched alloc conn pos =
      let timed : (conn.idle_timeout_sec == 0) ≡ false = ground arith in
      elim (Bool-cases alloc) [
        | inl e ↦ inl (e, rw (timed, e) (omega arith, refl, pos, refl))
        | inr e ↦ inr (e, rw (timed, e) refl)
      ]

  -- When the timer of a watched connection fires after `k` touches, fewer than 2^64, it frees the
  -- connection if there was none, and keeps it and watches it again if there was one.
  pub conn_idle_timeout_cb-Watched :
      (conn : Conn B) (k : ℕ)
      → Watched conn
      → k < 2 ^ 64
      → ((k ≡ 0) × (conn_idle_timeout_cb (touches k conn) ≡ none))
        ⊎ ((0 < k)
            × (after : Conn B) × (conn_idle_timeout_cb (touches k conn) ≡ some after)
            × Watched after)
  unfolding conn_idle_timeout_cb schedule_conn_idle_timer
  conn_idle_timeout_cb-Watched conn k (small, same, pos, pending) few =
      let t = touches k conn in
      let seq : t.activity_seq ≡ (conn.activity_seq + k) % 2 ^ 64 = touches-seq k conn small in
      let checked : t.idle_check_seq ≡ conn.idle_check_seq = (touches-fields k conn).0 in
      let sec : t.idle_timeout_sec ≡ conn.idle_timeout_sec = (touches-fields k conn).1 in
      elim (Bool-cases (k == 0)) [
        | inl none_touched ↦
            let zero_touches : k ≡ 0 = ground arith in
            let equal : t.activity_seq ≡ t.idle_check_seq = omega arith in
            let test : (t.activity_seq == t.idle_check_seq) ≡ true = ground arith in
            inl (zero_touches, rw test refl)
        | inr touched_once ↦
            let some_touch : 0 < k = ground arith in
            let differ : t.activity_seq ≢ t.idle_check_seq = λ e. omega arith in
            let test : (t.activity_seq == t.idle_check_seq) ≡ false = ground arith in
            let timed : (t.idle_timeout_sec == 0) ≡ false = ground arith in
            inr (
              some_touch,
              record t { idle_check_seq = t.activity_seq; idle_ev = some true },
              rw (test, timed) refl,
              (omega arith, refl, omega arith, refl),
            )
      ]
