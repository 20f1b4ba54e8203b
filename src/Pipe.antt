-- ===== src/Pipe.antt =====
-- src/stream_pipe.c, with conn_t of src/stream_route.h and conn_touch and finish_client_write of
-- src/stream_conn.c: bytes between a client and its upstream.
pub mod Ways
pub mod Flow
pub mod Idle
pub mod Events
pub mod Adopt
pub mod Tests
use tinyproxy.Base.{
  ℕ, ◌+◌, ◌*◌, ◌%◌, ◌^◌, ◌==◌, ◌≡◌, Bool, true, false, ◌&&◌, List, [], ◌++◌, Option, none, some,
  ltb, leb, if◌then◌else◌, Bytes, length,
}
use tinyproxy.Sniff.Peek.{StreamSniff, stream_sniff_peek_client_input}

-- STREAM_READ_HIGH_WATER, STREAM_WRITE_RESUME_WATER and CLOSE_WAIT_TIMEOUT_SEC
abbrev pub read_high_water : ℕ
read_high_water = 2 * (128 * 1024)

abbrev pub write_resume_water : ℕ
write_resume_water = 128 * 1024

abbrev pub close_wait_timeout_sec : ℕ
close_wait_timeout_sec = 2

-- A bufferevent of libevent: its input and output buffers, whether EV_READ is enabled, whether it
-- has a descriptor, and the calls on it. `add_buffer dst src` is evbuffer_add_buffer from the input
-- of `src` to the output of `dst`, and gives both back.
pub record Libevent (B : Type 0) : Type 0 where
  pub input : B → Bytes
  pub output : B → Bytes
  pub reads : B → Bool
  pub has_fd : B → Bool
  pub add_buffer : B → B → B × B
  pub enable_read : B → B
  pub disable_read : B → B
  pub disable_write : B → B
  pub shutdown_write : B → B
  pub set_read_timeout : ℕ → B → B
  pub evbuffer_copyout : Bytes → ℕ → Option Bytes

-- What the callbacks use of conn_t; `sni_sniff` and `idle_timeout_sec` are options of its route, and
-- `idle_ev` tells whether the timer is pending, with `none` for NULL. The client is never NULL there; `upstream` is `none` for NULL.
pub record Conn (B : Type 0) : Type 0 where
  pub client : B
  pub upstream : Option B
  pub sni_sniff : Bool
  pub sniff : StreamSniff
  pub activity_seq : ℕ
  pub idle_check_seq : ℕ
  pub idle_ev : Option Bool
  pub idle_timeout_sec : ℕ
  pub close_after_client_eof : Bool
  pub close_client_after_drain : Bool

abbrev pub touched : ℕ → ℕ
touched activity_seq = (activity_seq + 1) % 2 ^ 64

module _ {B : Type 0} (lib : Libevent B) where
  -- The end of both read callbacks: back-pressure on `src`.
  abbrev pub pause_if_full : B → B → B
  pause_if_full dst src =
      if leb read_high_water (length (lib.output dst)) then lib.disable_read src else src

  abbrev pub client_read : Conn B → Option B → Conn B
  client_read conn none = conn
  client_read conn (some upstream) =
      let (dst, src) = lib.add_buffer upstream conn.client in
      record conn {
        sniff =
            if conn.sni_sniff
            then stream_sniff_peek_client_input lib.evbuffer_copyout conn.sniff
                (lib.input conn.client)
            else conn.sniff;
        activity_seq = touched conn.activity_seq;
        upstream = some dst;
        client = pause_if_full dst src;
      }

  unfoldable pub pipe_client_read_cb : Conn B → Conn B
  pipe_client_read_cb conn = client_read conn conn.upstream

  -- The callback's bufferevent is the upstream.
  abbrev pub upstream_read : Conn B → Option B → Conn B
  upstream_read conn none = conn
  upstream_read conn (some upstream) =
      let (dst, src) = lib.add_buffer conn.client upstream in
      record conn {
        activity_seq = touched conn.activity_seq;
        upstream = some (pause_if_full dst src);
        client = dst;
      }

  unfoldable pub pipe_upstream_read_cb : Conn B → Conn B
  pipe_upstream_read_cb conn = upstream_read conn conn.upstream

  unfoldable pub finish_client_write : Conn B → Conn B
  finish_client_write conn =
      let client = if lib.has_fd conn.client then lib.shutdown_write conn.client else conn.client in
      record conn {
        client =
            lib.set_read_timeout close_wait_timeout_sec
              (lib.enable_read (lib.disable_write client));
      }

  abbrev pub resume_if_low : ℕ → B → B
  resume_if_low output_len src =
      if ltb output_len write_resume_water then lib.enable_read src else src

  abbrev pub client_write : Conn B → Option B → Conn B
  client_write conn none = conn
  client_write conn (some upstream) = record conn {
    upstream = some (resume_if_low (length (lib.output conn.client)) upstream);
  }

  unfoldable pub pipe_client_write_cb : Conn B → Conn B
  unfolding finish_client_write
  pipe_client_write_cb conn =
      if conn.close_client_after_drain && length (lib.output conn.client) == 0
      then record (finish_client_write conn) {
        close_client_after_drain = false;
        close_after_client_eof = true;
      }
      else client_write conn conn.upstream

  abbrev pub upstream_write : Conn B → Option B → Conn B
  upstream_write conn none = conn
  upstream_write conn (some upstream) = record conn {
    client = resume_if_low (length (lib.output upstream)) conn.client;
  }

  unfoldable pub pipe_upstream_write_cb : Conn B → Conn B
  pipe_upstream_write_cb conn = upstream_write conn conn.upstream
