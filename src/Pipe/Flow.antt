-- ===== src/Pipe/Flow.antt =====
-- A connection's bytes in every order of the callbacks of src/stream_pipe.c and of libevent's reads
-- and writes, from the time that both sides are connected until the upstream ends.
use mathlib.Core.Path.{subst}
use tinyproxy.Base.{
  ℕ, ◌≤◌, ◌≡◌, refl, sym, ◌∙◌, true, false, ◌&&◌, ◌++◌, some, ◌==◌, Bool-cases, inl, inr, ltb, leb,
  arith, Bytes, length,
}
use tinyproxy.Pipe.{
  Libevent, Conn, read_high_water, write_resume_water, pause_if_full, resume_if_low, client_read,
  upstream_read, client_write, upstream_write, pipe_client_read_cb, pipe_upstream_read_cb,
  pipe_client_write_cb, pipe_upstream_write_cb,
}
use tinyproxy.Pipe.Ways.{
  IsLibevent, Way, Way-same, Way-arrives, Way-flushes, Way-reads, Way-resumes,
}

-- A connection, with all the bytes that its sockets have received and sent.
pub record Flow (B : Type 0) : Type 0 where
  pub conn : Conn B
  pub from_client : Bytes
  pub to_upstream : Bytes
  pub from_upstream : Bytes
  pub to_client : Bytes

module _ {B : Type 0} (lib : Libevent B) where
  -- New bytes at the end of an input, which libevent reads up to the high water mark.
  abbrev pub Receives : B → Bytes → B → Type 0
  Receives b bytes c =
      (lib.reads b ≡ true)
      × (lib.input c ≡ lib.input b ++ bytes)
      × (lib.output c ≡ lib.output b)
      × (length (lib.input c) ≤ read_high_water)

  -- Bytes at the front of an output are written to the socket.
  abbrev pub Sends : B → Bytes → B → Type 0
  Sends b bytes c =
      (lib.output b ≡ bytes ++ lib.output c)
      × (lib.input c ≡ lib.input b)
      × (lib.reads c ≡ lib.reads b)

  -- A read callback runs where reads are enabled.
  pub data Step : Flow B → Flow B → Type 0 where
    client_receives :
        (s : Flow B) (bytes : Bytes) (c : B)
        → Receives s.conn.client bytes c
        → Step s
            (record s { conn = record s.conn { client = c }; from_client = s.from_client ++ bytes })
    upstream_receives :
        (s : Flow B) (bytes : Bytes) (u v : B)
        → s.conn.upstream ≡ some u
        → Receives u bytes v
        → Step s (record s {
          conn = record s.conn { upstream = some v };
          from_upstream = s.from_upstream ++ bytes;
        })
    client_sends :
        (s : Flow B) (bytes : Bytes) (c : B)
        → Sends s.conn.client bytes c
        → Step s
            (record s { conn = record s.conn { client = c }; to_client = s.to_client ++ bytes })
    upstream_sends :
        (s : Flow B) (bytes : Bytes) (u v : B)
        → s.conn.upstream ≡ some u
        → Sends u bytes v
        → Step s (record s {
          conn = record s.conn { upstream = some v };
          to_upstream = s.to_upstream ++ bytes;
        })
    client_reads :
        (s : Flow B)
        → lib.reads s.conn.client ≡ true
        → Step s (record s { conn = pipe_client_read_cb lib s.conn })
    upstream_reads :
        (s : Flow B) (u : B)
        → s.conn.upstream ≡ some u
        → lib.reads u ≡ true
        → Step s (record s { conn = pipe_upstream_read_cb lib s.conn })
    client_writes : (s : Flow B) → Step s (record s { conn = pipe_client_write_cb lib s.conn })
    upstream_writes : (s : Flow B) → Step s (record s { conn = pipe_upstream_write_cb lib s.conn })

  pub data Reaches : Flow B → Flow B → Type 0 where
    here : (s : Flow B) → Reaches s s
    after : (s t u : Flow B) → Reaches s t → Step t u → Reaches s u

  -- Both ways are sound, with `u` for the upstream, and no drain has begun.
  pub record Joined (s : Flow B) (u : B) : Type 0 where
    pub joined : s.conn.upstream ≡ some u
    pub forth : Way lib s.from_client s.to_upstream s.conn.client u
    pub back : Way lib s.from_upstream s.to_client u s.conn.client
    pub open_still : s.conn.close_client_after_drain ≡ false

  abbrev pub IsFlowing : Flow B → Type 0
  IsFlowing s = (u : B) × Joined s u

  module _ (law : IsLibevent lib) where
    some_eq : {a b : B} → some a ≡ some b → a ≡ b
    some_eq e = cc

    at_upstream : (s : Flow B) (u : B) → s.conn.upstream ≡ some u → IsFlowing s → Joined s u
    at_upstream s u e (x, w) = subst (λ z. Joined s z) (some_eq (sym w.joined ∙ e)) w

    pause-output : (dst src : B) → lib.output (pause_if_full lib dst src) ≡ lib.output src
    pause-output dst src = elim (Bool-cases (leb read_high_water (length (lib.output dst)))) [
      | inl full ↦ rw full (law.disable_output src)
      | inr room ↦ rw room refl
    ]

    resume-output : (n : ℕ) (b : B) → lib.output (resume_if_low lib n b) ≡ lib.output b
    resume-output n b = elim (Bool-cases (ltb n write_resume_water)) [
      | inl low ↦ rw low (law.enable_output b)
      | inr high ↦ rw high refl
    ]

    client_read-IsFlowing :
        (s : Flow B) (u : B)
        → lib.reads s.conn.client ≡ true
        → Joined s u
        → IsFlowing (record s { conn = client_read lib s.conn (some u) })
    client_read-IsFlowing s u on w =
        let client = s.conn.client in
        let dst = (lib.add_buffer u client).0 in
        let src = (lib.add_buffer u client).1 in
        (
          dst,
          record {
            joined = refl;
            forth = Way-reads lib law s.from_client s.to_upstream client u on w.forth;
            back =
                Way-same lib s.from_upstream s.to_client u client dst (pause_if_full lib dst src)
                  (law.dst_input u client) (λ e. sym (law.dst_reads u client) ∙ e)
                  (pause-output dst src ∙ law.src_output u client) w.back;
            open_still = w.open_still;
          },
        )

    upstream_read-IsFlowing :
        (s : Flow B) (u : B)
        → lib.reads u ≡ true
        → Joined s u
        → IsFlowing (record s { conn = upstream_read lib s.conn (some u) })
    upstream_read-IsFlowing s u on w =
        let client = s.conn.client in
        let dst = (lib.add_buffer client u).0 in
        let src = (lib.add_buffer client u).1 in
        (
          pause_if_full lib dst src,
          record {
            joined = refl;
            forth =
                Way-same lib s.from_client s.to_upstream client u dst (pause_if_full lib dst src)
                  (law.dst_input client u) (λ e. sym (law.dst_reads client u) ∙ e)
                  (pause-output dst src ∙ law.src_output client u) w.forth;
            back = Way-reads lib law s.from_upstream s.to_client u client on w.back;
            open_still = w.open_still;
          },
        )

    client_write-IsFlowing :
        (s : Flow B) (u : B)
        → Joined s u
        → IsFlowing (record s { conn = client_write lib s.conn (some u) })
    client_write-IsFlowing s u w =
        let client = s.conn.client in
        let n = length (lib.output client) in
        (
          resume_if_low lib n u,
          record {
            joined = refl;
            forth =
                Way-same lib s.from_client s.to_upstream client u client (resume_if_low lib n u)
                  refl (λ e. e) (resume-output n u) w.forth;
            back = Way-resumes lib law s.from_upstream s.to_client u client w.back;
            open_still = w.open_still;
          },
        )

    upstream_write-IsFlowing :
        (s : Flow B) (u : B)
        → Joined s u
        → IsFlowing (record s { conn = upstream_write lib s.conn (some u) })
    upstream_write-IsFlowing s u w =
        let client = s.conn.client in
        let n = length (lib.output u) in
        (
          u,
          record {
            joined = w.joined;
            forth = Way-resumes lib law s.from_client s.to_upstream client u w.forth;
            back =
                Way-same lib s.from_upstream s.to_client u client u (resume_if_low lib n client)
                  refl (λ e. e) (resume-output n client) w.back;
            open_still = w.open_still;
          },
        )

    -- Each step keeps both ways sound.
    Step-IsFlowing : {s t : Flow B} → Step s t → IsFlowing s → IsFlowing t
    unfolding pipe_client_read_cb pipe_upstream_read_cb pipe_client_write_cb pipe_upstream_write_cb
    Step-IsFlowing (client_receives s bytes c (on, i, o, small)) (u, w) = (
      u,
      record {
        joined = w.joined;
        forth =
            Way-arrives lib s.from_client s.to_upstream bytes s.conn.client u c on i small w.forth;
        back = Way-same lib s.from_upstream s.to_client u s.conn.client u c refl (λ e. e) o w.back;
        open_still = w.open_still;
      },
    )
    Step-IsFlowing (upstream_receives s bytes u v e (on, i, o, small)) h =
        let w = at_upstream s u e h in
        (
          v,
          record {
            joined = refl;
            forth =
                Way-same lib s.from_client s.to_upstream s.conn.client u s.conn.client v refl
                  (λ r. r) o w.forth;
            back =
                Way-arrives lib s.from_upstream s.to_client bytes u s.conn.client v on i small
                  w.back;
            open_still = w.open_still;
          },
        )
    Step-IsFlowing (client_sends s bytes c (o, i, r)) (u, w) = (
      u,
      record {
        joined = w.joined;
        forth =
            Way-same lib s.from_client s.to_upstream s.conn.client u c u i (λ e. sym r ∙ e) refl
              w.forth;
        back = Way-flushes lib s.from_upstream s.to_client bytes u s.conn.client c o w.back;
        open_still = w.open_still;
      },
    )
    Step-IsFlowing (upstream_sends s bytes u v e (o, i, r)) h =
        let w = at_upstream s u e h in
        (
          v,
          record {
            joined = refl;
            forth = Way-flushes lib s.from_client s.to_upstream bytes s.conn.client u v o w.forth;
            back =
                Way-same lib s.from_upstream s.to_client u s.conn.client v s.conn.client i
                  (λ k. sym r ∙ k) refl w.back;
            open_still = w.open_still;
          },
        )
    Step-IsFlowing (client_reads s on) (u, w) =
        subst (λ o. IsFlowing (record s { conn = client_read lib s.conn o })) (sym w.joined)
          (client_read-IsFlowing s u on w)
    Step-IsFlowing (upstream_reads s u e on) h =
        subst (λ o. IsFlowing (record s { conn = upstream_read lib s.conn o })) (sym e)
          (upstream_read-IsFlowing s u on (at_upstream s u e h))
    Step-IsFlowing (client_writes s) (u, w) =
        let not_yet : (s.conn.close_client_after_drain && length (lib.output s.conn.client) == 0)
            ≡ false =
          ground arith in
        rw not_yet (
          subst (λ o. IsFlowing (record s { conn = client_write lib s.conn o })) (sym w.joined)
            (client_write-IsFlowing s u w))
    Step-IsFlowing (upstream_writes s) (u, w) =
        subst (λ o. IsFlowing (record s { conn = upstream_write lib s.conn o })) (sym w.joined)
          (upstream_write-IsFlowing s u w)

    -- Until the upstream ends, in every order of the callbacks and of libevent's reads and writes, and in
    -- both directions: the bytes received are those sent, then those in the output buffer of the
    -- other side, then those in the input buffer, in order; an output buffer holds less than twice
    -- the high water mark; and where reads are enabled, the output of the other side is below it.
    pub pipe-IsFlowing : {s t : Flow B} → IsFlowing s → Reaches s t → IsFlowing t
    pipe-IsFlowing w (here _) = w
    pipe-IsFlowing w (after _ _ _ path step) = Step-IsFlowing step (pipe-IsFlowing w path)
