-- ===== src/Pipe/Events.antt =====
-- The event callbacks of src/stream_conn.c: how a connection begins, and how it ends.
pub mod Drain
pub mod Tests
use tinyproxy.Base.{
  ℕ, ◌==◌, Bool, true, false, not, ◌||◌, Option, none, some, if◌then◌else◌, ltb, Bytes, length,
}
use tinyproxy.Pipe.{Libevent, Conn, finish_client_write}
use tinyproxy.Pipe.Idle.{start_conn_idle_timer}

-- The bits of BEV_EVENT_ in `events`.
pub record Events : Type 0 where
  pub connected : Bool
  pub timeout : Bool
  pub error : Bool
  pub eof : Bool

-- conn_t with its field `upstream_connected`.
pub record Stream (B : Type 0) : Type 0 where
  pub conn : Conn B
  pub upstream_connected : Bool

-- Each error is a reason to free the connection; only the log tells them apart. `none` is a
-- connection that free_conn has freed.
unfoldable pub stream_client_event_cb : {B : Type 0} → Events → Conn B → Option (Conn B)
stream_client_event_cb events conn =
    if events.timeout
    then none
    else if events.error
    then none
    else if events.eof
    then none
    else some conn

module _ {B : Type 0} (lib : Libevent B) where
  abbrev pub client_has_pending_output : Conn B → Bool
  client_has_pending_output conn = ltb 0 (length (lib.output conn.client))

  abbrev pub disable_upstream : Option B → Option B
  disable_upstream none = none
  disable_upstream (some u) = some (lib.disable_write (lib.disable_read u))

  unfoldable pub drain_client_then_close : Conn B → Conn B
  unfolding finish_client_write
  drain_client_then_close conn =
      let marked = record conn {
        close_client_after_drain = true;
        upstream = disable_upstream conn.upstream;
      } in
      if client_has_pending_output marked then marked else record (finish_client_write lib marked) {
        close_client_after_drain = false;
        close_after_client_eof = true;
      }

-- `enable_write` is bufferevent_enable with EV_WRITE, and `clear_timeouts` is bufferevent_set_timeouts
-- without timeouts; `alloc` tells whether evtimer_new gives a timer.
module _ {B : Type 0} (lib : Libevent B) (enable_write clear_timeouts : B → B) (alloc : Bool) where
  abbrev pub clear_upstream : Option B → Option B
  clear_upstream none = none
  clear_upstream (some u) = some (clear_timeouts u)

  abbrev pub clear_idle_timeout : Conn B → Conn B
  clear_idle_timeout conn = record conn {
    client = clear_timeouts conn.client;
    upstream = clear_upstream conn.upstream;
  }

  abbrev pub enable_client : Conn B → Conn B
  enable_client conn = record conn { client = enable_write (lib.enable_read conn.client) }

  -- A timer that is not there leaves the connection without one.
  unfoldable pub stream_upstream_event_cb : Events → Stream B → Option (Stream B)
  unfolding start_conn_idle_timer drain_client_then_close
  stream_upstream_event_cb events s =
      let begun = enable_client (start_conn_idle_timer alloc (clear_idle_timeout s.conn)).1 in
      let drained = some (record s { conn = drain_client_then_close lib s.conn }) in
      if events.connected
      then some (record { conn = begun; upstream_connected = true })
      else if events.timeout
      then none
      else if events.error
      then (if client_has_pending_output lib s.conn then drained else none)
      else if events.eof
      then drained
      else none
