-- ===== src/Pipe/Events/Drain.antt =====
-- The end of a response in src/stream_conn.c and src/stream_pipe.c: the half-close of the client's
-- side.
use tinyproxy.Base.{
  ℕ, ◌<◌, ◌≡◌, refl, sym, ap, ◌∙◌, ◌⊎◌, inl, inr, Bool, true, false, ◌&&◌, Bool-cases, [], ◌∷◌,
  ◌++◌, append_assoc, Option, none, some, ◌==◌, ltb, if◌then◌else◌, arith, Bytes, length,
}
use tinyproxy.Pipe.{Libevent, Conn, client_write, finish_client_write, pipe_client_write_cb}
use tinyproxy.Pipe.Flow.{Sends}
use tinyproxy.Pipe.Events.{
  Events, Stream, client_has_pending_output, drain_client_then_close, stream_upstream_event_cb,
}

-- Documented behaviour: `is_shut` tells whether the write side of the socket was shut down. A client
-- has a descriptor, shutdown shuts its write side down, and no call here but a write changes its output.
pub record IsHalfClose {B : Type 0} (lib : Libevent B) (is_shut : B → Bool) : Type 0 where
  pub descriptor : (b : B) → lib.has_fd b ≡ true
  pub shuts : (b : B) → is_shut (lib.shutdown_write b) ≡ true
  pub disable_shut : (b : B) → is_shut (lib.disable_write b) ≡ is_shut b
  pub enable_shut : (b : B) → is_shut (lib.enable_read b) ≡ is_shut b
  pub timeout_shut : (sec : ℕ) (b : B) → is_shut (lib.set_read_timeout sec b) ≡ is_shut b
  pub shutdown_output : (b : B) → lib.output (lib.shutdown_write b) ≡ lib.output b
  pub disable_output : (b : B) → lib.output (lib.disable_write b) ≡ lib.output b
  pub enable_output : (b : B) → lib.output (lib.enable_read b) ≡ lib.output b
  pub timeout_output : (sec : ℕ) (b : B) → lib.output (lib.set_read_timeout sec b) ≡ lib.output b

-- Of five tests, those that lead to a connection that is kept.
chosen :
    {S : Type 0} (connected timeout error pending eof : Bool) (begun drained : Option S) (t : S)
    → connected ≡ false
    → (if connected
        then begun
        else if timeout
        then none
        else if error
        then (if pending then drained else none)
        else if eof
        then drained
        else none)
      ≡ some t
    → drained ≡ some t
chosen true timeout error pending eof begun drained t old h = cc
chosen false true error pending eof begun drained t old h = cc
chosen false false true true eof begun drained t old h = h
chosen false false true false eof begun drained t old h = cc
chosen false false false pending true begun drained t old h = h
chosen false false false pending false begun drained t old h = cc

module _ {B : Type 0} (lib : Libevent B) (is_shut : B → Bool) where
  -- From a connection on, bytes of the client's output are written, in pieces of any size, and the
  -- write callback of the client runs at any time.
  pub data Writes (start : Conn B) : Bytes → Conn B → Type 0 where
    at_start : Writes start [] start
    writes :
        {sent : Bytes} {conn : Conn B} (bytes : Bytes) (client : B)
        → Writes start sent conn
        → Sends lib conn.client bytes client
        → is_shut client ≡ is_shut conn.client
        → Writes start (sent ++ bytes) (record conn { client = client })
    callback :
        {sent : Bytes} {conn : Conn B}
        → Writes start sent conn
        → Writes start sent (pipe_client_write_cb lib conn)

  -- Bytes are left and the write side is open, or all are written and it is shut.
  abbrev pub Waits : Conn B → Type 0
  Waits conn = (conn.close_client_after_drain ≡ true) × (is_shut conn.client ≡ false)

  abbrev pub Ended : Conn B → Type 0
  Ended conn =
      (conn.close_client_after_drain ≡ false)
      × (conn.close_after_client_eof ≡ true)
      × (is_shut conn.client ≡ true)
      × (lib.output conn.client ≡ [])

  -- `queued` is all that the client is to get.
  pub record IsDraining (queued sent : Bytes) (conn : Conn B) : Type 0 where
    pub order : sent ++ lib.output conn.client ≡ queued
    pub phase : Waits conn ⊎ Ended conn

  module _ (law : IsHalfClose lib is_shut) where
    finish-Ended :
        (conn : Conn B)
        → lib.output conn.client ≡ []
        → Ended (record (finish_client_write lib conn) {
          close_client_after_drain = false;
          close_after_client_eof = true;
        })
    unfolding finish_client_write
    finish-Ended conn empty = rw (law.descriptor conn.client) (
      refl,
      refl,
      law.timeout_shut _ _ ∙ law.enable_shut _ ∙ law.disable_shut _ ∙ law.shuts _,
      law.timeout_output _ _
          ∙ law.enable_output _
          ∙ law.disable_output _
          ∙ law.shutdown_output _
          ∙ empty,
    )

    no_bytes : (bytes : Bytes) → (length bytes == 0) ≡ true → bytes ≡ []
    no_bytes [] h = refl
    no_bytes (b ∷ bytes) h = absurd (ground arith)

    rest_empty : (bytes rest : Bytes) → [] ≡ bytes ++ rest → rest ≡ []
    rest_empty [] rest h = sym h
    rest_empty (b ∷ bytes) rest h = cc

    -- Where the callback does nothing but to resume the upstream.
    resumed-IsDraining :
        (queued sent : Bytes) (conn : Conn B)
        → IsDraining queued sent conn
        → IsDraining queued sent (client_write lib conn conn.upstream)
    resumed-IsDraining queued sent conn w = by_upstream conn.upstream
      where
        by_upstream : (u : Option B) → IsDraining queued sent (client_write lib conn u)
        by_upstream none = w
        by_upstream (some b) = record { order = w.order; phase = w.phase }

    callback-IsDraining :
        (queued sent : Bytes) (conn : Conn B)
        → IsDraining queued sent conn
        → IsDraining queued sent (pipe_client_write_cb lib conn)
    unfolding pipe_client_write_cb
    callback-IsDraining queued sent conn w = elim w.phase [
      | inr ended ↦
          let test : (conn.close_client_after_drain && length (lib.output conn.client) == 0)
              ≡ false =
            rw ended.0 refl in
          rw test (resumed-IsDraining queued sent conn w)
      | inl waits ↦ elim (Bool-cases (length (lib.output conn.client) == 0)) [
        | inr more ↦
            let test : (conn.close_client_after_drain && length (lib.output conn.client) == 0)
                ≡ false =
              rw (waits.0, more) refl in
            rw test (resumed-IsDraining queued sent conn w)
        | inl done ↦
            let empty : lib.output conn.client ≡ [] = no_bytes (lib.output conn.client) done in
            let ended = finish-Ended conn empty in
            let test : (conn.close_client_after_drain && length (lib.output conn.client) == 0)
                ≡ true =
              rw (waits.0, done) refl in
            rw test (record {
              order = ap (λ z. sent ++ z) (ended.3 ∙ sym empty) ∙ w.order;
              phase = inr ended;
            })
      ]
    ]

    writes-IsDraining :
        (queued sent bytes : Bytes) (conn : Conn B) (client : B)
        → IsDraining queued sent conn
        → Sends lib conn.client bytes client
        → is_shut client ≡ is_shut conn.client
        → IsDraining queued (sent ++ bytes) (record conn { client = client })
    writes-IsDraining queued sent bytes conn client w (out, _, _) same = record {
      order = append_assoc sent bytes (lib.output client) ∙ ap (λ z. sent ++ z) (sym out) ∙ w.order;
      phase = elim w.phase [
        | inl waits ↦ inl (waits.0, same ∙ waits.1)
        | inr ended ↦ inr (
          ended.0,
          ended.1,
          same ∙ ended.2,
          rest_empty bytes (lib.output client) (sym ended.3 ∙ out),
        )
      ];
    }

    drain-IsDraining :
        (conn : Conn B)
        → is_shut conn.client ≡ false
        → IsDraining (lib.output conn.client) [] (drain_client_then_close lib conn)
    unfolding drain_client_then_close
    drain-IsDraining conn is_open = elim (Bool-cases (ltb 0 (length (lib.output conn.client)))) [
      | inl pending ↦ rw pending (record { order = refl; phase = inl (refl, is_open) })
      | inr nothing ↦
          let empty : lib.output conn.client ≡ [] =
            no_bytes (lib.output conn.client) (ground arith) in
          let ended = finish-Ended (record conn { close_client_after_drain = true }) empty in
          rw nothing (record { order = ended.3 ∙ sym empty; phase = inr ended })
    ]

    reached-IsDraining :
        (start conn : Conn B) (queued sent : Bytes)
        → IsDraining queued [] start
        → Writes start sent conn
        → IsDraining queued sent conn
    reached-IsDraining start _ queued _ w at_start = w
    reached-IsDraining start _ queued _ w (writes {sent} {conn} bytes client before out same) =
        writes-IsDraining queued sent bytes conn client
          (reached-IsDraining start conn queued sent w before) out same
    reached-IsDraining start _ queued _ w (callback {sent} {conn} before) =
        callback-IsDraining queued sent conn (reached-IsDraining start conn queued sent w before)

    -- The callback ends the response once nothing is left to write.
    callback-Ended :
        (queued sent : Bytes) (conn : Conn B)
        → IsDraining queued sent conn
        → (0 < length (lib.output conn.client)) ⊎ Ended (pipe_client_write_cb lib conn)
    unfolding pipe_client_write_cb
    callback-Ended queued sent conn w = elim (Bool-cases (length (lib.output conn.client) == 0)) [
      | inr more ↦ inl (ground arith)
      | inl done ↦ elim w.phase [
        | inl waits ↦
            let test : (conn.close_client_after_drain && length (lib.output conn.client) == 0)
                ≡ true =
              rw (waits.0, done) refl in
            rw test (inr (finish-Ended conn (no_bytes (lib.output conn.client) done)))
        | inr ended ↦
            let test : (conn.close_client_after_drain && length (lib.output conn.client) == 0)
                ≡ false =
              rw ended.0 refl in
            rw test (inr (by_upstream conn.upstream ended))
      ]
    ]
      where
        by_upstream : (u : Option B) → Ended conn → Ended (client_write lib conn u)
        by_upstream none ended = ended
        by_upstream (some b) ended = ended

    module _ (enable_write clear_timeouts : B → B) (alloc : Bool) where
      kept-drains :
          (events : Events) (s t : Stream B)
          → events.connected ≡ false
          → stream_upstream_event_cb lib enable_write clear_timeouts alloc events s ≡ some t
          → t.conn ≡ drain_client_then_close lib s.conn
      unfolding stream_upstream_event_cb drain_client_then_close
      kept-drains events s t old h =
          let same : some (record s { conn = drain_client_then_close lib s.conn }) ≡ some t =
            chosen events.connected events.timeout events.error
              (client_has_pending_output lib s.conn) events.eof _ _ t old h in
          ap of_conn (sym same)
        where
          of_conn : Option (Stream B) → Conn B
          of_conn none = s.conn
          of_conn (some u) = u.conn

      -- After any event of the upstream but its connection, a connection that is not freed gets its
      -- response to the end: in every order of writes of any size and of the write callback, the
      -- bytes written are the front of what was queued for the client, in order; its write side is
      -- not shut down while bytes are left, and when none are left, the next callback finds it shut or shuts it,
      -- and the connection waits for the client's end. The write side was open before.
      pub stream_upstream_event-drains :
          (events : Events) (s t : Stream B) (sent : Bytes) (conn : Conn B)
          → events.connected ≡ false
          → is_shut s.conn.client ≡ false
          → stream_upstream_event_cb lib enable_write clear_timeouts alloc events s ≡ some t
          → Writes t.conn sent conn
          → IsDraining (lib.output s.conn.client) sent conn
            × ((0 < length (lib.output conn.client)) ⊎ Ended (pipe_client_write_cb lib conn))
      stream_upstream_event-drains events s t sent conn old is_open kept after =
          (drains, callback-Ended (lib.output s.conn.client) sent conn drains)
        where
          begins : IsDraining (lib.output s.conn.client) [] t.conn
          begins = rw (kept-drains events s t old kept) (drain-IsDraining s.conn is_open)

          drains : IsDraining (lib.output s.conn.client) sent conn
          drains = reached-IsDraining t.conn conn (lib.output s.conn.client) sent begins after
