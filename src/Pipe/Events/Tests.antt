-- ===== src/Pipe/Events/Tests.antt =====
-- The end of a response, with a bufferevent made of its output and a flag.
use tinyproxy.Base.{◌<◌, ◌≡◌, refl, ◌⊎◌, Bool, true, false, [], none, some, Bytes, codes, length}
use tinyproxy.Sniff.Peek.{zeroed}
use tinyproxy.Pipe.{Libevent, Conn, pipe_client_write_cb}
use tinyproxy.Pipe.Events.{Events, Stream, stream_client_event_cb, stream_upstream_event_cb}
use tinyproxy.Pipe.Events.Drain.{
  IsHalfClose, Writes, at_start, writes, callback, Ended, IsDraining, stream_upstream_event-drains,
}

record Half : Type 0 where
  unsent : Bytes
  shut : Bool

abbrev halves : Libevent Half
halves = record {
  input = λ b. [];
  output = λ b. b.unsent;
  reads = λ b. false;
  has_fd = λ b. true;
  add_buffer = λ dst src. (dst, src);
  enable_read = λ b. b;
  disable_read = λ b. b;
  disable_write = λ b. b;
  shutdown_write = λ b. record b { shut = true };
  set_read_timeout = λ sec b. b;
  evbuffer_copyout = λ input n. none;
}

halves-IsHalfClose : IsHalfClose halves (λ b. b.shut)
halves-IsHalfClose = record {
  descriptor = λ b. refl;
  shuts = λ b. refl;
  disable_shut = λ b. refl;
  enable_shut = λ b. refl;
  timeout_shut = λ sec b. refl;
  shutdown_output = λ b. refl;
  disable_output = λ b. refl;
  enable_output = λ b. refl;
  timeout_output = λ sec b. refl;
}

-- A response of four bytes is queued when the upstream ends.
abbrev answering : Stream Half
answering = record {
  conn = record {
    client = record { unsent = codes "DONE"; shut = false };
    upstream = some (record { unsent = []; shut = false });
    sni_sniff = false;
    sniff = zeroed;
    activity_seq = 1;
    idle_check_seq = 1;
    idle_ev = some true;
    idle_timeout_sec = 60;
    close_after_client_eof = false;
    close_client_after_drain = false;
  };
  upstream_connected = true;
}

abbrev at_eof : Events
at_eof = record { connected = false; timeout = false; error = false; eof = true }

client_eof : stream_client_event_cb at_eof answering.conn ≡ none
unfolding stream_client_event_cb
client_eof = refl

abbrev draining : Conn Half
draining = record answering.conn { close_client_after_drain = true }

kept :
    stream_upstream_event_cb halves (λ b. b) (λ b. b) true at_eof answering
    ≡ some (record answering { conn = draining })
unfolding stream_upstream_event_cb
kept = refl

-- Two bytes are written, and the callback runs before the other two.
abbrev two_left : Half
two_left = record { unsent = codes "NE"; shut = false }

half_written :
    Writes halves
      (λ b. b.shut)
      draining
      (codes "DO")
      (pipe_client_write_cb halves (record draining { client = two_left }))
half_written = callback (writes (codes "DO") two_left at_start (refl, refl, refl) refl)

stream_upstream_event-drains_example :
    IsDraining halves
      (λ b. b.shut)
      (codes "DONE")
      (codes "DO")
      (pipe_client_write_cb halves (record draining { client = two_left }))
    × ((0
          < length (
              halves.output
                (pipe_client_write_cb halves (record draining { client = two_left })).client))
        ⊎ Ended halves
            (λ b. b.shut)
            (pipe_client_write_cb halves
              (pipe_client_write_cb halves (record draining { client = two_left }))))
stream_upstream_event-drains_example =
    stream_upstream_event-drains halves (λ b. b.shut) halves-IsHalfClose (λ b. b) (λ b. b) true
      at_eof answering (record answering { conn = draining }) (codes "DO")
      (pipe_client_write_cb halves (record draining { client = two_left })) refl refl kept
      half_written
