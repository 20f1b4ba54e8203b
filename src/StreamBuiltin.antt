-- ===== src/StreamBuiltin.antt =====
-- src/stream_builtin.c.
pub mod Kept
pub mod Answered
pub mod Tests
use tinyproxy.Base.{
  ℕ, ◌==◌, ◌≡◌, Bool, true, false, not, ◌||◌, [], ◌++◌, Option, none, some, ltb, if◌then◌else◌,
  Bytes, codes, length, Errno, Result, ok, err,
}
use tinyproxy.Text.Decimal.{decimal}
use tinyproxy.Builtin.{
  XBuiltin, XBuiltinAction, close_action, http_resp_action, discard_action, hang_action,
  XBuiltinRequest, XBuiltinResponse, x_builtin_handle,
}
use tinyproxy.Datagram.{ss_family, af_inet, af_inet6, storage_bytes}
use tinyproxy.Datagram.Packet.{with_port}
use tinyproxy.Pipe.{Libevent, Conn, finish_client_write}
use tinyproxy.Pipe.Events.{Events, stream_client_event_cb}

-- The callbacks that are set, with NULL for none.
pub data ReadCb : Type 0 where
  no_read_cb builtin_client_read : ReadCb

pub data WriteCb : Type 0 where
  no_write_cb builtin_close_after_write builtin_http_close_after_write : WriteCb

pub record BuiltinConn (B : Type 0) : Type 0 where
  pub conn : Conn B
  pub read_cb : ReadCb
  pub write_cb : WriteCb

-- More calls of libevent: bufferevent_write, whose result is not used; evbuffer_drain of all the input;
-- bufferevent_enable with EV_WRITE; and bufferevent_set_timeouts with one timeout for both ways.
pub record BuiltinCalls (B : Type 0) : Type 0 where
  pub lib : Libevent B
  pub write : Bytes → B → B
  pub drain_input : B → B
  pub enable_write : B → B
  pub set_timeouts : ℕ → B → B

-- `peer` is what getpeername gives on the client's socket, `none` if it fails or there is none.
unfoldable pub stream_client_addr_string : (ℕ → Bytes → Option Bytes) → Option Bytes → Option Bytes
stream_client_addr_string inet_ntop none = none
stream_client_addr_string inet_ntop (some addr) =
    if ss_family addr == af_inet
    then with_port addr (inet_ntop af_inet (storage_bytes 4 4 addr))
    else if ss_family addr == af_inet6
    then with_port addr (inet_ntop af_inet6 (storage_bytes 8 16 addr))
    else some (codes "unknown")

module _ {B : Type 0} (calls : BuiltinCalls B) where
  unfoldable pub builtin_client_read_cb : Conn B → Conn B
  builtin_client_read_cb conn = record conn { client = calls.drain_input conn.client }

  unfoldable pub builtin_http_close_after_write_cb : Conn B → Conn B
  unfolding finish_client_write
  builtin_http_close_after_write_cb conn =
      if not (length (calls.lib.output conn.client) == 0)
      then conn
      else record (finish_client_write calls.lib conn) { close_after_client_eof = true }

  -- `none` is a connection that free_conn has freed.
  unfoldable pub builtin_close_after_write_cb : Conn B → Option (Conn B)
  builtin_close_after_write_cb conn =
      if length (calls.lib.output conn.client) == 0 then none else some conn

  abbrev pub set_client_idle_timeout : Conn B → Conn B
  set_client_idle_timeout conn = record conn {
    client = calls.set_timeouts conn.idle_timeout_sec conn.client;
  }

  abbrev pub written : Bytes → Conn B → Conn B
  written bs conn = record conn { client = calls.enable_write (calls.write bs conn.client) }

  abbrev pub reading : Conn B → Conn B
  reading conn = record conn { client = calls.lib.enable_read conn.client }

  -- The switch over the action of the response.
  unfoldable pub by_action : XBuiltinAction → Bytes → Conn B → Option (BuiltinConn B)
  unfolding finish_client_write
  by_action close_action payload conn =
      if ltb 0 (length payload)
      then some (record {
        conn = written payload conn;
        read_cb = no_read_cb;
        write_cb = builtin_close_after_write;
      })
      else none
  by_action http_resp_action payload conn =
      if ltb 0 (length payload)
      then some (record {
        conn = reading (written payload conn);
        read_cb = builtin_client_read;
        write_cb = builtin_http_close_after_write;
      })
      else some (record {
        conn =
            reading (record (finish_client_write calls.lib conn) { close_after_client_eof = true });
        read_cb = builtin_client_read;
        write_cb = no_write_cb;
      })
  by_action discard_action payload conn =
      some (record { conn = reading conn; read_cb = builtin_client_read; write_cb = no_write_cb })
  by_action hang_action payload conn =
      some (record { conn = reading conn; read_cb = no_read_cb; write_cb = no_write_cb })

  unfoldable pub answered : Result XBuiltinResponse → Conn B → Option Errno × Option (BuiltinConn B)
  unfolding by_action
  answered (err e) conn = (some e, none)
  answered (ok res) conn = (
    none,
    by_action res.action res.payload (set_client_idle_timeout (record conn { upstream = none })),
  )

  -- With a connection and a route: the return code, `none` for 0, and the connection unless it was
  -- freed.
  unfoldable pub start_stream_builtin :
      (ℕ → Bytes → Option Bytes)
      → Option Bytes
      → XBuiltin
      → Conn B
      → Option Errno × Option (BuiltinConn B)
  unfolding x_builtin_handle stream_client_addr_string answered
  start_stream_builtin inet_ntop peer builtin conn =
      answered
        (x_builtin_handle
          (record { builtin = builtin; client_addr = stream_client_addr_string inet_ntop peer })).0
        conn

  -- The callbacks as libevent calls them.
  unfoldable pub on_read : BuiltinConn B → BuiltinConn B
  unfolding builtin_client_read_cb
  on_read b = elim b.read_cb [
    | no_read_cb ↦ b
    | builtin_client_read ↦ record b { conn = builtin_client_read_cb b.conn }
  ]

  abbrev pub with_conn : BuiltinConn B → Option (Conn B) → Option (BuiltinConn B)
  with_conn b none = none
  with_conn b (some conn) = some (record b { conn = conn })

  unfoldable pub on_write : BuiltinConn B → Option (BuiltinConn B)
  unfolding builtin_close_after_write_cb builtin_http_close_after_write_cb
  on_write b = elim b.write_cb [
    | no_write_cb ↦ some b
    | builtin_close_after_write ↦ with_conn b (builtin_close_after_write_cb b.conn)
    | builtin_http_close_after_write ↦
        some (record b { conn = builtin_http_close_after_write_cb b.conn })
  ]

  unfoldable pub on_event : Events → BuiltinConn B → Option (BuiltinConn B)
  unfolding stream_client_event_cb
  on_event events b = with_conn b (stream_client_event_cb events b.conn)

-- A connection, with the bytes that libevent has sent to the client.
pub record Answering (B : Type 0) : Type 0 where
  pub built : BuiltinConn B
  pub to_client : Bytes

abbrev pub client_is : {B : Type 0} → B → BuiltinConn B → BuiltinConn B
client_is client b = record b { conn = record b.conn { client = client } }

-- Bytes of the output go out, others come in, and libevent calls a callback.
pub data Step {B : Type 0} (calls : BuiltinCalls B) : Answering B → Answering B → Type 0 where
  goes_out :
      {a : Answering B} (client : B) (now : Bytes)
      → calls.lib.output a.built.conn.client ≡ now ++ calls.lib.output client
      → Step calls a (record { built = client_is client a.built; to_client = a.to_client ++ now })
  comes_in :
      {a : Answering B} (client : B)
      → calls.lib.output client ≡ calls.lib.output a.built.conn.client
      → Step calls a (record a { built = client_is client a.built })
  readable : {a : Answering B} → Step calls a (record a { built = on_read calls a.built })
  writable :
      {a : Answering B} {b : BuiltinConn B}
      → on_write calls a.built ≡ some b
      → Step calls a (record a { built = b })
  event :
      {a : Answering B} {b : BuiltinConn B} (events : Events)
      → on_event calls events a.built ≡ some b
      → Step calls a (record a { built = b })

pub data Reached {B : Type 0} (calls : BuiltinCalls B) (start : Answering B)
    : Answering B → Type 0 where
  at_start : Reached calls start start
  after :
      {now next : Answering B}
      → Reached calls start now
      → Step calls now next
      → Reached calls start next
