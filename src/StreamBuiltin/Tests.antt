-- ===== src/StreamBuiltin/Tests.antt =====
-- src/stream_builtin.c on a bufferevent made of lists.
use tinyproxy.Base.{ℕ, ◌≡◌, refl, Bool, true, false, [], ◌++◌, Option, none, some, Bytes, take}
use tinyproxy.Builtin.{http_ok, http_resp_action, http_ok_text, x_builtin_handle}
use tinyproxy.Sniff.Peek.{zeroed}
use tinyproxy.Pipe.{Conn}
use tinyproxy.StreamBuiltin.{
  BuiltinCalls, BuiltinConn, builtin_client_read, builtin_http_close_after_write,
  start_stream_builtin, on_write, Answering, Reached, at_start, after, goes_out, writable,
}
use tinyproxy.StreamBuiltin.Kept.{IsBuffering}
use tinyproxy.StreamBuiltin.Answered.{start_stream_builtin-Answers}

record Bev : Type 0 where
  unread : Bytes
  unsent : Bytes
  on : Bool
  shut : Bool

abbrev calls : BuiltinCalls Bev
calls = record {
  lib = record {
    input = λ b. b.unread;
    output = λ b. b.unsent;
    reads = λ b. b.on;
    has_fd = λ b. true;
    add_buffer =
        λ dst src. (record dst { unsent = dst.unsent ++ src.unread }, record src { unread = [] });
    enable_read = λ b. record b { on = true };
    disable_read = λ b. record b { on = false };
    disable_write = λ b. b;
    shutdown_write = λ b. record b { shut = true };
    set_read_timeout = λ sec b. b;
    evbuffer_copyout = λ input n. some (take n input);
  };
  write = λ bs b. record b { unsent = b.unsent ++ bs };
  drain_input = λ b. record b { unread = [] };
  enable_write = λ b. b;
  set_timeouts = λ sec b. b;
}

abbrev calls-IsBuffering : IsBuffering calls
calls-IsBuffering = record {
  appends = λ bs b. refl;
  drains = λ b. refl;
  enables_write = λ b. refl;
  enables_read = λ b. refl;
  disables_write = λ b. refl;
  shuts = λ b. refl;
  waits = λ n b. refl;
  times = λ n b. refl;
}

abbrev no_text : ℕ → Bytes → Option Bytes
no_text family addr = none

abbrev arrived : Conn Bev
arrived = record {
  client = record { unread = []; unsent = []; on = false; shut = false };
  upstream = none;
  sni_sniff = false;
  sniff = zeroed;
  activity_seq = 0;
  idle_check_seq = 0;
  idle_ev = none;
  idle_timeout_sec = 60;
  close_after_client_eof = false;
  close_client_after_drain = false;
}

abbrev responding : BuiltinConn Bev
responding = record {
  conn = record arrived {
    client = record { unread = []; unsent = http_ok_text; on = true; shut = false };
  };
  read_cb = builtin_client_read;
  write_cb = builtin_http_close_after_write;
}

responds : start_stream_builtin calls no_text none http_ok arrived ≡ (none, some responding)
unfolding start_stream_builtin
responds = refl

abbrev all_out : Answering Bev
all_out = record {
  built = record responding {
    conn = record arrived { client = record { unread = []; unsent = []; on = true; shut = false } };
  };
  to_client = http_ok_text;
}

abbrev half_closed : Answering Bev
half_closed = record all_out {
  built = record responding {
    conn = record arrived {
      client = record { unread = []; unsent = []; on = true; shut = true };
      close_after_client_eof = true;
    };
  };
}

all_is_out : Reached calls (record { built = responding; to_client = [] }) all_out
all_is_out =
    after at_start
      (goes_out (record { unread = []; unsent = []; on = true; shut = false }) http_ok_text refl)

closes : on_write calls all_out.built ≡ some half_closed.built
unfolding on_write
closes = refl

start_stream_builtin-Answers_example :
    (http_ok_text ++ [] ≡ http_ok_text)
    × (true ≡ true → http_ok_text ≡ http_ok_text)
    × (on_write calls half_closed.built ≡ none → http_ok_text ≡ http_ok_text)
unfolding x_builtin_handle
start_stream_builtin-Answers_example =
    start_stream_builtin-Answers calls calls-IsBuffering no_text none http_ok arrived
      (record { action = http_resp_action; payload = http_ok_text }) responding half_closed refl
      refl refl responds (after all_is_out (writable closes))
