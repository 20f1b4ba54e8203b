-- ===== src/Pipe/Tests.antt =====
-- A bufferevent made of two lists and a flag, and the pipe's theorem on a run with it.
use tinyproxy.Base.{
  ℕ, ◌≡◌, ◌<◌, ◌⊎◌, none, refl, Bool, true, false, [], ◌++◌, some, arith, Bytes, codes, take,
}
use tinyproxy.Sniff.Peek.{zeroed}
use tinyproxy.Pipe.{Conn, Libevent, pipe_client_read_cb}
use tinyproxy.Pipe.Ways.{IsLibevent}
use tinyproxy.Pipe.Idle.{conn_idle_timeout_cb, touches, Watched, conn_idle_timeout_cb-Watched}
use tinyproxy.Pipe.Flow.{
  Flow, client_receives, upstream_sends, client_reads, Reaches, here, after, IsFlowing,
  pipe-IsFlowing,
}

record Bev : Type 0 where
  unread : Bytes
  unsent : Bytes
  on : Bool

abbrev lists : Libevent Bev
lists = record {
  input = λ b. b.unread;
  output = λ b. b.unsent;
  reads = λ b. b.on;
  has_fd = λ b. true;
  add_buffer =
      λ dst src. (record dst { unsent = dst.unsent ++ src.unread }, record src { unread = [] });
  enable_read = λ b. record b { on = true };
  disable_read = λ b. record b { on = false };
  disable_write = λ b. b;
  shutdown_write = λ b. b;
  set_read_timeout = λ sec b. b;
  evbuffer_copyout = λ input n. some (take n input);
}

abbrev lists-IsLibevent : IsLibevent lists
lists-IsLibevent = record {
  moved = λ dst src. refl;
  emptied = λ dst src. refl;
  dst_input = λ dst src. refl;
  src_output = λ dst src. refl;
  dst_reads = λ dst src. refl;
  disabled = λ b. refl;
  disable_input = λ b. refl;
  disable_output = λ b. refl;
  enable_input = λ b. refl;
  enable_output = λ b. refl;
}

abbrev quiet : Bev
quiet = record { unread = []; unsent = []; on = true }

-- Two bytes of a header wait for the upstream.
abbrev upstream : Bev
upstream = record quiet { unsent = codes "PV" }

abbrev connected : Flow Bev
connected = record {
  conn = record {
    client = quiet;
    upstream = some upstream;
    sni_sniff = false;
    sniff = zeroed;
    activity_seq = 1;
    idle_check_seq = 1;
    idle_ev = some true;
    idle_timeout_sec = 60;
    close_after_client_eof = false;
    close_client_after_drain = false;
  };
  from_client = codes "PV";
  to_upstream = [];
  from_upstream = [];
  to_client = [];
}

connected-IsFlowing : IsFlowing lists connected
connected-IsFlowing = (
  upstream,
  record {
    joined = refl;
    forth = record {
      order = refl;
      pressure = λ e. omega arith;
      output_bound = omega arith;
      input_bound = omega arith;
    };
    back = record {
      order = refl;
      pressure = λ e. omega arith;
      output_bound = omega arith;
      input_bound = omega arith;
    };
    open_still = refl;
  },
)

-- The client sends "hi", it is passed on, and the upstream's socket takes three bytes.
abbrev received : Flow Bev
received = record connected {
  conn = record connected.conn { client = record quiet { unread = codes "hi" } };
  from_client = codes "PVhi";
}

abbrev passed : Flow Bev
passed = record received { conn = pipe_client_read_cb lists received.conn }

abbrev sent : Flow Bev
sent = record passed {
  conn = record passed.conn { upstream = some (record upstream { unsent = codes "i" }) };
  to_upstream = codes "PVh";
}

passes : Reaches lists connected sent
unfolding pipe_client_read_cb
passes =
    after _ _ _
      (after _ _ _
        (after _ _ _ (here connected)
          (client_receives connected (codes "hi") _ (refl, refl, refl, omega arith)))
        (client_reads received refl))
      (upstream_sends passed (codes "PVh") (record upstream { unsent = codes "PVhi" }) _ refl
        (refl, refl, refl))

pipe-IsFlowing_example : IsFlowing lists sent
pipe-IsFlowing_example = pipe-IsFlowing lists lists-IsLibevent connected-IsFlowing passes

abbrev three : ℕ
three = 3

conn_idle_timeout_cb-Watched_example :
    ((three ≡ 0) × (conn_idle_timeout_cb (touches three connected.conn) ≡ none))
    ⊎ ((0 < three)
        × (next : Conn Bev) × (conn_idle_timeout_cb (touches three connected.conn) ≡ some next)
        × Watched next)
conn_idle_timeout_cb-Watched_example =
    conn_idle_timeout_cb-Watched connected.conn three (omega arith, refl, omega arith, refl)
      (omega arith)
