-- ===== src/StreamFile.antt =====
-- src/stream_file.c.
pub mod Delivered
pub mod Finished
pub mod Tests
use tinyproxy.Base.{
  ℕ, zero, suc, ◌==◌, ◌≡◌, Bool, true, false, not, [], ◌++◌, Option, none, some, leb, if◌then◌else◌,
  Bytes, length, take, drop, Errno, enomem,
}
use tinyproxy.Text.{is_nil}
use tinyproxy.Pipe.{read_high_water}

abbrev pub file_chunk_size : ℕ
file_chunk_size = 4096

-- `struct file_conn` with what it points to: the bytes that fread can still give, and whether the
-- stream has an error behind them in place of its end; the output of the client's bufferevent, and
-- what libevent has sent of it.
pub record FileConn : Type 0 where
  pub left : Bytes
  pub broken : Bool
  pub output : Bytes
  pub sent : Bytes

-- Why file_done was called, which closes the file and frees the connection: at the end of the file
-- with no output, or after an error.
pub data Why : Type 0 where
  at_eof after_error : Why

pub data FileRun : Type 0 where
  serving : FileConn → FileRun
  file_done : Why → FileConn → FileRun

-- `write_ok` tells whether bufferevent_write takes some bytes.
module _ (write_ok : Bytes → Bool) where
  -- The loop of file_write_cb; `none` is one that is out of rounds.
  unfoldable pub write_loop : ℕ → FileConn → Option FileRun
  write_loop zero fc = none
  write_loop (suc rounds) fc =
      let buf = take file_chunk_size fc.left in
      let rest = drop file_chunk_size fc.left in
      let again = write_loop rounds (record fc { left = rest; output = fc.output ++ buf }) in
      if leb read_high_water (length fc.output)
      then some (serving fc)
      else if not (is_nil buf)
      then (if write_ok buf
          then again
          else some (file_done after_error (record fc { left = rest })))
      else if fc.broken
      then some (file_done after_error fc)
      else if length fc.output == 0
      then some (file_done at_eof fc)
      else some (serving fc)

  unfoldable pub file_write_cb : FileConn → Option FileRun
  unfolding write_loop
  file_write_cb fc = write_loop (suc (length fc.left)) fc

  -- With a connection and a route: the errors of fopen, whether calloc gives memory, and what the
  -- opened file holds. After an error, `none`, the file is closed and the connection is freed.
  unfoldable pub start_stream_file :
      Option Errno → Bool → Bytes → Bool → Option Errno × Option FileRun
  unfolding file_write_cb
  start_stream_file (some e) calloc contents broken = (some e, none)
  start_stream_file none calloc contents broken =
      if calloc
      then (
        none,
        file_write_cb (record { left = contents; broken = broken; output = []; sent = [] }),
      )
      else (some enomem, none)

  unfoldable pub file_event_cb : FileConn → FileRun
  file_event_cb fc = file_done after_error fc

-- Bytes of the output go out, libevent calls for more, or it reports an end, an error or a timeout.
pub data Step (write_ok : Bytes → Bool) : FileRun → FileRun → Type 0 where
  goes_out :
      {fc : FileConn} (now later : Bytes)
      → fc.output ≡ now ++ later
      → Step write_ok (serving fc) (serving (record fc { output = later; sent = fc.sent ++ now }))
  writable :
      {fc : FileConn} {run : FileRun}
      → file_write_cb write_ok fc ≡ some run
      → Step write_ok (serving fc) run
  event : {fc : FileConn} → Step write_ok (serving fc) (file_event_cb write_ok fc)

pub data Reached (write_ok : Bytes → Bool) (start : FileRun) : FileRun → Type 0 where
  at_start : Reached write_ok start start
  after :
      {now next : FileRun}
      → Reached write_ok start now
      → Step write_ok now next
      → Reached write_ok start next
